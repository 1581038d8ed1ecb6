-- ===== src/Session/Lifecycle/Close.antt =====
-- What Close does in each state of the session.
use livy_next.Prelude.{◌≡◌, true, false, arith, none}
use livy_next.Prelude.Int.{ℤ}
use livy_next.Session.Types.{Session}
use livy_next.Session.Lifecycle.{
  returned, panicked, close, close_state, is_terminal, client_close, begin_close, finish_close,
}

pub close-statements :
    (now : ℤ) (s : Session) → (close_state (close now s)).statements ≡ s.statements
unfolding close
close-statements now s = ground arith

pub close-is_terminal :
    (now : ℤ) (s : Session) → is_terminal (close_state (close now s)).state ≡ true
unfolding close
close-is_terminal now s = ground arith

module _ (now : ℤ) (s : Session) where
  pub close_terminal : is_terminal s.state ≡ true → close now s ≡ returned s none
  unfolding close
  close_terminal t = rw t

  pub close_open :
      is_terminal s.state ≡ false
      → s.close_ch ≡ false
      → close now s ≡ returned (finish_close now (begin_close s)) (client_close s.client)
  unfolding close
  close_open t c = rw (t, c)

  pub close_closed :
      is_terminal s.state ≡ false → s.close_ch ≡ true → close now s ≡ panicked (begin_close s)
  unfolding close
  close_closed t c = rw (t, c)

pub close-id : (now : ℤ) (s : Session) → (close_state (close now s)).id ≡ s.id
unfolding close
close-id now s = ground arith

pub close-session_id :
    (now : ℤ) (s : Session) → (close_state (close now s)).session_id ≡ s.session_id
unfolding close
close-session_id now s = ground arith
