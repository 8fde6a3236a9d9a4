-- ===== src/Echo/Tests.antt =====
-- A session with one byte.
use cosc.Prelude.{◌+◌, ◌*◌, ◌≤◌, refl, true, false, [], ◌∷◌, length, Bytes, arith}
use cosc.Echo.{
  got, eof, returned, Session, start, read_socket, read_stdin, str_cli, str_echo, socket, stdin,
  server, Run, here, next,
}
use cosc.Echo.Order.{IsSession, Run-IsSession}
use cosc.Echo.Ending.{Goes, session_ends}

abbrev typed : Bytes
typed = 104 ∷ []

-- The byte and the end of the input go up, come down, and are shown.
abbrev at_end : Session
at_end = record {
  input = [];
  stdineof = true;
  up = [];
  down = [];
  shown = typed;
  client = returned;
  echoing = false;
}

a_run : Run (start typed) 6 at_end
unfolding start str_cli str_echo read_socket read_stdin
a_run =
    next
      (next
        (next
          (next
            (next (next here (stdin (got 1) refl refl (omega arith)))
              (stdin eof refl refl (refl, refl)))
            (server (got 1) refl (omega arith)))
          (socket (got 1) refl (omega arith)))
        (server eof refl (refl, refl)))
      (socket eof refl (refl, refl))

Run-IsSession_example : IsSession typed at_end
Run-IsSession_example = Run-IsSession typed a_run

session_ends_example : (6 ≤ 3 * length typed + 3) × Goes returned typed at_end
session_ends_example = session_ends typed a_run
