-- ===== src/Logger/Growth.antt =====
-- What `Log` of logger/logger.go does to a file, whatever the disk allows.
use net_cat.Base.{
  Bytes, bytes_eq, bytes_eq_iff, ◌≡◌, refl, sym, ◌∙◌, ap, [], ◌∷◌, ◌++◌, append-nil, Option, none,
  some, inl, inr, arith, Bool-cases, both_branches,
}
use net_cat.Models.{Message}
use net_cat.Models.Format.{format_log_line}
use net_cat.Logger.{
  Disk, Logger, log_path, content_of, format_date, ensure_file, write_string, log_message,
}
use net_cat.Logger.Laws.{content_of-insert}

-- The second text is the first with something behind it.
abbrev pub Extends : Bytes → Bytes → Type 0
Extends s t = (tail : Bytes) × (t ≡ s ++ tail)

as_is : (s t : Bytes) → t ≡ s → Extends s t
as_is s t e = ([], e ∙ sym (append-nil s))

ensure_file-content :
    (date : Bytes) (l : Logger) (d : Disk) (p : Bytes)
    → content_of p (ensure_file date l d).1.files ≡ content_of p d.files
unfolding ensure_file
ensure_file-content date l d p =
    let path = log_path l.logs_dir date in
    ground (arith, bytes_eq_iff path p, content_of-insert p path (content_of path d.files) d.files)

write_string-Extends :
    (text : Bytes) (o : Option Bytes) (d : Disk) (p : Bytes)
    → Extends (content_of p d.files) (content_of p (write_string text o d).files)
unfolding write_string
write_string-Extends text none d p = as_is _ _ refl
write_string-Extends text (some path) d p = elim (Bool-cases (d.can_write path)) [
  | inl w ↦ elim (Bool-cases (bytes_eq path p)) [
    | inl e ↦ (
      text,
      ground (
        arith,
        w,
        bytes_eq_iff path p,
        content_of-insert p path (content_of path d.files ++ text) d.files,
      ),
    )
    | inr e ↦
        as_is _ _
          (ground (arith, w, content_of-insert p path (content_of path d.files ++ text) d.files))
  ]
  | inr w ↦ as_is _ _ (ground (arith, w))
]

pub log_message-Extends :
    (m : Message) (l : Logger) (d : Disk) (p : Bytes)
    → Extends (content_of p d.files) (content_of p (log_message m l d).1.files)
unfolding log_message
log_message-Extends m l d p =
    let date = format_date m.timestamp in
    let (l', d', failed) = ensure_file date l d in
    let opened = ensure_file-content date l d p in
    let (tail, e) = write_string-Extends (format_log_line m ++ 10 ∷ []) l'.file d' p in
    both_branches Grown l.closed (as_is _ _ refl) (
      both_branches Grown failed (as_is _ _ opened)
        (tail, e ∙ ap (λ (x : Bytes). x ++ tail) opened))
  where
    Grown : Logger × Disk → Type 0
    Grown (l', d') = Extends (content_of p d.files) (content_of p d'.files)
