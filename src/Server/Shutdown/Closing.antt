-- ===== src/Server/Shutdown/Closing.antt =====
-- What the end of `Shutdown`, server/server.go, leaves behind.
use net_cat.Base.{
  is_member, ℕ, ◌==◌, true, ◌≡◌, refl, ◌∙◌, ap, List, [], ◌∷◌, inl, inr, arith, Bool-cases,
  Option-cases,
}
use net_cat.Models.{Message}
use net_cat.Client.{Client, close}
use net_cat.Logger.{log_message, close_logger}
use net_cat.Server.{Server, Now, on_client, log_to}
use net_cat.Server.Shutdown.{close_tracked, close_log, finish_shutdown}

-- Closing others keeps a connection closed.
close_tracked-done :
    (c : ℕ) (cs : List ℕ) (s : Server)
    → (s.heap c).done ≡ true
    → ((close_tracked cs s).heap c).done ≡ true
unfolding close_tracked
close_tracked-done c [] s h = h
close_tracked-done c (d ∷ cs) s h =
    close_tracked-done c cs _ (unfold on_client close in ground arith)

close_tracked-closes :
    (c : ℕ) (cs : List ℕ) (s : Server)
    → is_member c cs ≡ true
    → ((close_tracked cs s).heap c).done ≡ true
unfolding close_tracked
close_tracked-closes c [] s h = cc
close_tracked-closes c (d ∷ cs) s h = elim (Bool-cases (d == c)) [
  | inl e ↦ close_tracked-done c cs _ (unfold on_client close in ground arith)
  | inr e ↦ close_tracked-closes c cs _ (ground arith)
]

log_to-heap : (m : Message) (s : Server) → (log_to m s).heap ≡ s.heap
unfolding log_to
log_to-heap m s = elim (Option-cases s.logger) [ inl e ↦ rw e refl | inr (l, e) ↦ rw e refl ]

close_log-heap : (s : Server) → (close_log s).heap ≡ s.heap
unfolding close_log
close_log-heap s = elim (Option-cases s.logger) [ inl e ↦ rw e refl | inr (l, e) ↦ rw e refl ]

-- A closed logger writes nothing.
close_log-silent : (m : Message) (s : Server) → (log_to m (close_log s)).disk ≡ (close_log s).disk
unfolding log_to close_log log_message close_logger
close_log-silent m s = elim (Option-cases s.logger) [ inl e ↦ rw e refl | inr (l, e) ↦ rw e refl ]

-- At the end of a shutdown every tracked connection is closed, and what is logged after it reaches
-- no file.
pub finish_shutdown-closes :
    (now : Now) (s : Server)
    → (let t = finish_shutdown now s in
        ((c : ℕ) → is_member c s.all_clients ≡ true → (t.heap c).done ≡ true)
        × ((m : Message) → (log_to m t).disk ≡ t.disk))
unfolding finish_shutdown
finish_shutdown-closes now s = (
  λ c h.
      ap (λ (f : ℕ → Client). (f c).done) (close_log-heap _ ∙ log_to-heap _ _)
      ∙ close_tracked-closes c s.all_clients s h,
  λ m. close_log-silent m _,
)
