-- ===== src/Sockets.antt =====
-- util.c: send_all() and recv_all(), over the calls send() and recv() of the system.
-- The system is an argument: each call takes one answer from a list, `none` for -1, and `some n`
-- where the kernel has room for, or holds, `n` bytes at that moment; a call moves as many of the bytes
-- that it was asked for. `out` is what was handed to the kernel, in order, and `pending` what the peer
-- sent and the program has not read. A call with no answer left blocks for ever (`starved`).
-- DIE() ends the process with EXIT_FAILURE.
pub mod Sending
pub mod Receiving
use tcp_udp_client_server.Base.{
  if◌then◌else◌, Bool, true, false, ℕ, zero, suc, ◌+◌, ◌-◌, Option, none, some, List, [], ◌∷◌, ◌++◌,
  length, take, drop,
}
use tcp_udp_client_server.CString.{Bytes}
use tcp_udp_client_server.Outcome.{Outcome, Cmd, ok, exited, starved, pure, ◌>>=◌, ◌>>◌}

abbrev pub exit_failure : ℕ
exit_failure = 1

pub record Socket : Type 0 where
  pub answers : List (Option ℕ)
  pub out : Bytes
  pub pending : Bytes

answer_send : Bytes → Socket → List (Option ℕ) → Outcome Socket (Option ℕ)
answer_send buf s [] = starved
answer_send buf s (none ∷ rest) = ok none (record s { answers = rest })
answer_send buf s (some n ∷ rest) =
    ok (some (length (take n buf))) (record s { answers = rest; out = s.out ++ take n buf })

-- send() of `buf`: the count of the bytes that went out, or `none` for -1
unfoldable pub send : Bytes → Cmd Socket (Option ℕ)
unfolding answer_send
send buf s = answer_send buf s s.answers

answer_recv : ℕ → Socket → List (Option ℕ) → Outcome Socket (Option Bytes)
answer_recv len s [] = starved
answer_recv len s (none ∷ rest) = ok none (record s { answers = rest })
answer_recv len s (some n ∷ rest) =
    ok (some (take len (take n s.pending)))
      (record s { answers = rest; pending = drop (length (take len (take n s.pending))) s.pending })

-- recv() of at most `len` bytes: the bytes, or `none` for -1
unfoldable pub recv : ℕ → Cmd Socket (Option Bytes)
unfolding answer_recv
recv len s = answer_recv len s s.answers

abbrev pub die : {A : Type 0} → Cmd Socket A
die s = exited exit_failure s

-- The loop of send_all() over the bytes that remain.
unfoldable pub send_loop : ℕ → Bytes → Cmd Socket (Unit {0})
send_loop zero rest = λ _. starved
send_loop (suc k) [] = pure tt
send_loop (suc k) (c ∷ rest) = do
  rc ← send (c ∷ rest)
  elim rc [ none ↦ die | some n ↦ send_loop k (drop n (c ∷ rest)) ]

-- Its last line sends the buffer again, and returns what that send() does.
unfoldable pub send_all : Bytes → Cmd Socket (Option ℕ)
send_all buf = do λ s. send_loop (length s.answers + 1) buf s; send buf

-- The loop of recv_all(): `got` are the first bytes of the buffer. The answer says whether the buffer
-- was filled; if not, the stream has ended.
unfoldable pub recv_loop : ℕ → (got : Bytes) (remaining : ℕ) → Cmd Socket (Bool × Bytes)
recv_loop zero got remaining = λ _. starved
recv_loop (suc k) got zero = pure (true, got)
recv_loop (suc k) got (suc r) = do
  rc ← recv (suc r)
  elim rc [
    | none ↦ die
    | some [] ↦ pure (false, got)
    | some (c ∷ bytes) ↦ recv_loop k (got ++ (c ∷ bytes)) (suc r - length (c ∷ bytes))
  ]

-- Its last line reads into the buffer once more, over the bytes that are there. The result is what
-- recv_all() returns (`none` for -1), and the buffer that it leaves.
abbrev pub over : Bytes → Bytes → Bytes
over new old = new ++ drop (length new) old

unfoldable pub reread : ℕ → Bytes → Cmd Socket (Option ℕ × Bytes)
reread len got = do
  rc ← recv len
  elim rc [ none ↦ pure (none, got) | some bytes ↦ pure (some (length bytes), over bytes got) ]

unfoldable pub recv_all : (buffer : Bytes) → Cmd Socket (Option ℕ × Bytes)
recv_all buffer = do
  (full, got) ← λ s. recv_loop (length s.answers + 1) [] (length buffer) s
  if full then reread (length buffer) got else pure (some 0, over got buffer)
