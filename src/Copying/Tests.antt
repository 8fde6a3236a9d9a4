-- ===== src/Copying/Tests.antt =====
-- The nonblocking client on two rounds.
use cosc.Prelude.{ℕ, ◌≡◌, refl, true, false, [], ◌∷◌, arith}
use cosc.Copying.{Copy, start, In, got, took, Kernel, str_cli}
use cosc.Copying.Conserve.{Documented, Conserved, Holds, str_cli-Conserved}

-- Input and output are ready; neither input has a byte yet.
abbrev typing : Kernel
typing = record {
  stdin_ready = true;
  sock_ready = false;
  sock_writable = true;
  stdout_writable = true;
  from_stdin = λ n. In.later;
  from_sock = λ n. In.later;
  onto_stdout = λ n. took n;
  onto_sock = λ n. took n;
}

took_injective : {a b : ℕ} → took a ≡ took b → a ≡ b
took_injective h = cc

typing-Documented : Documented typing
typing-Documented = record {
  stdin_fits = λ n bs h. absurd (cc);
  sock_fits = λ n bs h. absurd (cc);
  stdout_takes = λ n j h. let e = took_injective h in omega arith;
  sock_takes = λ n j h. let e = took_injective h in omega arith;
}

str_cli-Conserved_example : Holds Conserved Conserved (str_cli (typing ∷ typing ∷ []) start)
str_cli-Conserved_example =
    str_cli-Conserved (typing ∷ typing ∷ []) (typing-Documented, (typing-Documented, tt))

-- The server hangs up.
abbrev hangup : Kernel
hangup = record typing { sock_ready = true; from_sock = λ n. got [] }

-- The input is closed and one byte waits for standard output.
abbrev unshown : Copy
unshown = record start {
  fr = record { cells = 7 ∷ []; out = 0 };
  stdineof = true;
  sock_read = 7 ∷ [];
  fins = 1;
}

unshown-Conserved : Conserved unshown
unfolding start
unshown-Conserved = record {
  to_fits = omega arith;
  fr_fits = omega arith;
  sent = refl;
  shown = refl;
  fin = refl;
}
