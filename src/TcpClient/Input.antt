-- ===== src/TcpClient/Input.antt =====
-- TCP_client.c: the arguments of the program, and the commands on the standard input.
pub mod Parsing
use tcp_udp_client_server.Base.{
  ℕ, zero, ◌≡◌, refl, Bool, true, false, Option, none, some, List, [], ◌∷◌, ◌==◌, if◌then◌else◌,
}
use tcp_udp_client_server.Clients.{id_maxlen}
use tcp_udp_client_server.CString.{Bytes, str_eq, fits, scan_word, scan_unsigned}
use tcp_udp_client_server.CString.Numbers.{scan_int, after_number}
use tcp_udp_client_server.Outcome.{Outcome, ok, exited, fault, starved, Cmd, pure, ◌>>=◌, ◌>>◌}
use tcp_udp_client_server.Sockets.{exit_failure}
use tcp_udp_client_server.Subscriptions.{topic_len}
use tcp_udp_client_server.TcpClient.{
  Command, client_cmd_exit, client_cmd_subscribe, client_cmd_unsubscribe, client_cmd_undefined,
  CommandArgs,
}

abbrev pub cmd_maxlen : ℕ
cmd_maxlen = 12

-- struct args; `server_ip` is the 32 bits of `s_addr`, the first byte of the address lowest.
pub record Args : Type 0 where
  pub id : Bytes
  pub server_ip : ℕ
  pub server_port : ℕ

unfoldable pub check_args : (argc : ℕ) → Bool
check_args argc = argc == 4

-- A conversion that fails ends in DIE(); a word that overruns its array is undefined.
abbrev scanned : {A : Type 0} → Option A → Cmd (Unit {0}) A
scanned none s = exited exit_failure s
scanned (some a) s = ok a s

abbrev scanned_id : Option (Bytes × Bytes) → Cmd (Unit {0}) Bytes
scanned_id none s = exited exit_failure s
scanned_id (some (id, rest)) s = if fits id_maxlen id then ok id s else fault

parse_args : (id ip port : Bytes) → Cmd (Unit {0}) Args
parse_args id ip port = do
  id ← scanned_id (scan_word id)
  ip ← scanned (scan_int ip)
  port ← scanned (scan_unsigned 16 port)
  pure (record { id = id; server_ip = ip; server_port = port })

-- get_args(), on the strings of `argv`; a missing one is read through NULL.
unfoldable pub get_args : List Bytes → Cmd (Unit {0}) Args
unfolding parse_args
get_args (_ ∷ id ∷ ip ∷ port ∷ _) = parse_args id ip port
get_args _ = λ _. fault

abbrev pub exit_word : Bytes
exit_word = b'e' ∷ b'x' ∷ b'i' ∷ b't' ∷ []

abbrev pub subscribe_word : Bytes
subscribe_word = b's' ∷ b'u' ∷ b'b' ∷ b's' ∷ b'c' ∷ b'r' ∷ b'i' ∷ b'b' ∷ b'e' ∷ []

abbrev pub unsubscribe_word : Bytes
unsubscribe_word = b'u' ∷ b'n' ∷ b's' ∷ b'u' ∷ b'b' ∷ b's' ∷ b'c' ∷ b'r' ∷ b'i' ∷ b'b' ∷ b'e' ∷ []

abbrev with_topic : Command → Bytes → ℕ → CommandArgs
with_topic cmd topic sf = record { cmd = cmd; topic = topic; store_and_forward = sf }

-- vread("%s %hhu", …), from what follows the topic: without a number the command is not defined.
abbrev read_flag : Bytes → Bytes → CommandArgs × Bytes
read_flag topic rest = elim (scan_unsigned 8 rest) [
  | none ↦ (with_topic client_cmd_undefined topic 0, after_number rest)
  | some sf ↦ (with_topic client_cmd_subscribe topic sf, after_number rest)
]

read_subscribe : Option (Bytes × Bytes) → Option (CommandArgs × Bytes)
read_subscribe none = some (with_topic client_cmd_undefined [] 0, [])
read_subscribe (some (topic, rest)) =
    if fits topic_len topic then some (read_flag topic rest) else none

-- vread("%s", …)
read_unsubscribe : Option (Bytes × Bytes) → Option (CommandArgs × Bytes)
read_unsubscribe none = some (with_topic client_cmd_undefined [] 0, [])
read_unsubscribe (some (topic, rest)) =
    if fits topic_len topic then some (with_topic client_cmd_unsubscribe topic 0, rest) else none

-- The branches on the first word, which fits its array.
command_of : (cmd rest : Bytes) → Option (CommandArgs × Bytes)
unfolding read_subscribe read_unsubscribe
command_of cmd rest =
    if str_eq cmd exit_word
    then some (with_topic client_cmd_exit [] 0, rest)
    else if str_eq cmd subscribe_word
    then read_subscribe (scan_word rest)
    else if str_eq cmd unsubscribe_word
    then read_unsubscribe (scan_word rest)
    else some (with_topic client_cmd_undefined [] 0, rest)

-- get_user_command() on the standard input: the arguments and what is left unread. Without a word the
-- array of the command is read uninitialised, and a word that overruns its array is undefined: `none`.
unfoldable pub get_user_command : Bytes → Option (CommandArgs × Bytes)
unfolding command_of
get_user_command input = elim (scan_word input) [
  | none ↦ none
  | some (cmd, rest) ↦ if fits cmd_maxlen cmd then command_of cmd rest else none
]
