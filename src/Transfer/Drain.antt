-- ===== src/Transfer/Drain.antt =====
-- How the receiver of Lab4/tcp_receiver.c ends.
use cosc.Prelude.{ℕ, ◌≡◌, refl, List, [], ◌∷◌, some}
use cosc.Stream.{Reply, got, interrupted, failed}
use cosc.Stream.ReadExact.{Ending, closed, reset, open_end, ending}
use cosc.Transfer.{Exit, exit_success, exit_failure, running, drain, receive}

-- No read(2) is interrupted by a signal.
abbrev pub Undisturbed : List Reply → Type 0
Undisturbed [] = Unit
Undisturbed (got bs ∷ rs) = Undisturbed rs
Undisturbed (interrupted ∷ rs) = ⊥
Undisturbed (failed ∷ rs) = Undisturbed rs

abbrev pub exit_of : Ending → Exit
exit_of closed = exit_success
exit_of reset = exit_failure
exit_of open_end = running

-- Undisturbed by signals, the receiver reads to the end of the stream: it exits with success exactly
-- when the peer closes the connection, and with failure when a read fails first.
pub receive_lem :
    (fd : ℕ) (rs : List Reply) → Undisturbed rs → receive (some fd) rs ≡ exit_of (ending rs)
unfolding receive drain
receive_lem fd [] u = refl
receive_lem fd (got [] ∷ rs) u = refl
receive_lem fd (got (b ∷ bs) ∷ rs) u = receive_lem fd rs u
receive_lem fd (interrupted ∷ rs) u = absurd u
receive_lem fd (failed ∷ rs) u = refl
