-- ===== src/Logger/Run.antt =====
-- A day of calls of `Log`, logger/logger.go.
use net_cat.Base.{
  Bytes, bytes_eq_refl, true, false, ◌≡◌, refl, sym, ◌∙◌, ap, List, [], ◌∷◌, ◌++◌, map,
  append_assoc, append-nil, All, arith, Bool,
}
use net_cat.Base.Scanner.{joined}
use net_cat.Models.{Message}
use net_cat.Models.Format.{format_log_line}
use net_cat.Logger.{Disk, Logger, log_path, content_of, format_date, ensure_file, log_message}
use net_cat.Logger.Laws.{IsOpen, day_path, log_message-IsOpen, log_message-appends}

-- One call of `Log` after the other.
abbrev pub log_messages : List Message → Logger → Disk → Logger × Disk
log_messages [] l d = (l, d)
log_messages (m ∷ ms) l d = let (l', d') = log_message m l d in log_messages ms l' d'

-- The logger writes to files of the directory, on a disk that lets the day's file be written.
pub record IsReady (dir date : Bytes) (l : Logger) (d : Disk) : Type 0 where
  pub open_log : IsOpen l
  pub running : l.closed ≡ false
  pub directory : l.logs_dir ≡ dir
  pub can_open : d.can_open (log_path dir date) ≡ true
  pub can_write : d.can_write (log_path dir date) ≡ true

log_message-keeps :
    (m : Message) (l : Logger) (d : Disk)
    → ((log_message m l d).0.closed ≡ l.closed)
      × ((log_message m l d).0.logs_dir ≡ l.logs_dir)
      × ((log_message m l d).1.can_open ≡ d.can_open)
      × ((log_message m l d).1.can_write ≡ d.can_write)
unfolding log_message ensure_file
log_message-keeps m l d = (ground arith, ground arith, ground arith, ground arith)

module _ (dir date : Bytes) where
  log_message-IsReady :
      (m : Message) (l : Logger) (d : Disk)
      → IsReady dir date l d
      → IsReady dir date (log_message m l d).0 (log_message m l d).1
  log_message-IsReady m l d v =
      let (c, p, o, w) = log_message-keeps m l d in
      record {
        open_log = log_message-IsOpen m l d v.open_log;
        running = c ∙ v.running;
        directory = p ∙ v.directory;
        can_open = ap (λ (f : Bytes → Bool). f (log_path dir date)) o ∙ v.can_open;
        can_write = ap (λ (f : Bytes → Bool). f (log_path dir date)) w ∙ v.can_write;
      }

  log_message-line :
      (m : Message) (l : Logger) (d : Disk)
      → IsReady dir date l d
      → format_date m.timestamp ≡ date
      → content_of (log_path dir date) (log_message m l d).1.files
        ≡ content_of (log_path dir date) d.files ++ (format_log_line m ++ 10 ∷ [])
  log_message-line m l d v e =
      let path = log_path dir date in
      let same : day_path l m ≡ path = rw (v.directory, e) refl in
      log_message-appends m l d path v.open_log v.running (ap d.can_open same ∙ v.can_open)
        (ap d.can_write same ∙ v.can_write)
      ∙ rw (same, bytes_eq_refl path) refl

  pub log_messages-IsReady :
      (ms : List Message) (l : Logger) (d : Disk)
      → IsReady dir date l d
      → IsReady dir date (log_messages ms l d).0 (log_messages ms l d).1
  log_messages-IsReady [] l d v = v
  log_messages-IsReady (m ∷ ms) l d v = log_messages-IsReady ms _ _ (log_message-IsReady m l d v)

  -- On an open logger and a disk that lets the day's file be opened and written, the messages of a
  -- day become the lines at the end of that file, in their order.
  pub log_messages-content :
      (ms : List Message) (l : Logger) (d : Disk)
      → IsReady dir date l d
      → All (λ m. format_date m.timestamp ≡ date) ms
      → content_of (log_path dir date) (log_messages ms l d).1.files
        ≡ content_of (log_path dir date) d.files ++ joined (map format_log_line ms)
  log_messages-content [] l d v h = sym (append-nil _)
  log_messages-content (m ∷ ms) l d v (e, h) =
      log_messages-content ms _ _ (log_message-IsReady m l d v) h
      ∙ ap (λ (x : Bytes). x ++ joined (map format_log_line ms)) (log_message-line m l d v e)
      ∙ append_assoc (content_of (log_path dir date) d.files) _ _
      ∙ ap (λ (x : Bytes). content_of (log_path dir date) d.files ++ x)
          (append_assoc (format_log_line m) (10 ∷ []) _)
