-- ===== src/Events/Examples.antt =====
-- Tests of the model of src/tfr/events.py.
use tfr.Base.{ℕ, ◌≡◌, refl, Bool, true, none, some, ltb, codes}
use tfr.Json.{end}
use tfr.Events.{CommandRequest, human, outbound_audit_event}
use tfr.Events.Patterns.{
  login_prefix, password_command, any_spaces, some_spaces, gap, gap_rest, after_word, same_letter,
  put, put_pair, put_all, or_else, login_word, login_rest, name, quoted_name, quoted_gap,
  after_quote, bare_name, bare_rest, command_end,
}

abbrev ascii_space : ℕ → Bool
ascii_space c = ltb c 33

abbrev secret : CommandRequest
secret = record {
  session_id = 1;
  world = codes "mush";
  actor = record { type = human; id = codes "ui" };
  text = codes "+bank secret";
  request_id = 2;
  sensitive = true;
  correlation_id = none;
  causation_id = none;
  metadata = end;
  expected_connection_generation = none;
}

outbound_audit_event-codes :
    (outbound_audit_event ascii_space secret 0 0 0).canonical_text ≡ some (codes "[REDACTED]")
unfolding outbound_audit_event login_prefix password_command any_spaces some_spaces gap gap_rest
    after_word same_letter put put_pair put_all or_else login_word login_rest name quoted_name
    quoted_gap after_quote bare_name bare_rest command_end
outbound_audit_event-codes = refl

login_prefix-codes :
    login_prefix ascii_space (codes " Connect Ann secret word") ≡ some (codes " Connect Ann ")
unfolding login_prefix any_spaces some_spaces gap gap_rest after_word same_letter put put_pair
    put_all or_else login_word login_rest name quoted_name quoted_gap after_quote bare_name
    bare_rest
login_prefix-codes = refl

-- A name in quotes that no white space follows is taken for a name without quotes.
login_prefix-quoted : login_prefix ascii_space (codes "co \"a b\"c d") ≡ some (codes "co \"a ")
unfolding login_prefix any_spaces some_spaces gap gap_rest after_word same_letter put put_pair
    put_all or_else login_word login_rest name quoted_name quoted_gap after_quote bare_name
    bare_rest
login_prefix-quoted = refl

-- A name that begins with a quote: the quote in the password closes it, and a part of the password is
-- shown.
login_prefix-leak :
    login_prefix ascii_space (codes "connect \"a b\" c") ≡ some (codes "connect \"a b\" ")
unfolding login_prefix any_spaces some_spaces gap gap_rest after_word same_letter put put_pair
    put_all or_else login_word login_rest name quoted_name quoted_gap after_quote bare_name
    bare_rest
login_prefix-leak = refl

password_command-codes :
    password_command ascii_space (codes " @Password=old=new") ≡ some (codes "@Password")
unfolding password_command after_word same_letter put put_pair or_else command_end
password_command-codes = refl
