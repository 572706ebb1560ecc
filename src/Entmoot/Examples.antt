-- ===== src/Entmoot/Examples.antt =====
-- The application of entmoot/src on concrete keys, in the environment of Desk.
use fangorn_rs.Prelude.{◌≡◌, refl, true, false, some, none, List, [], ◌∷◌, ◌++◌}
use fangorn_rs.Fixtures.{nom, ss58, hex}
use fangorn_rs.Rust.Outcome.{ok}
use fangorn_rs.Rust.Text.{Text, codes, split, is_whitespace, trim, trim_matches}
use fangorn_rs.Utils.{load_mnemonic}
use fangorn_rs.Rust.Bytes.{to_le_bytes}
use fangorn_rs.Rust.Lines.{file_name}
use fangorn_rs.Gadget.Syntax.{parse_intent_string}
use fangorn_rs.Crypto.Decrypt.{parse_witnesses}
use fangorn_rs.Entmoot.Env.{KeyEvent, KeyCode, enter, down, char, backspace, Event, press, resize}
use fangorn_rs.Entmoot.Desk.{env, typing, account}
use fangorn_rs.Entmoot.App.{App, new, main, encryption_input_screen, decrypt_screen}
use fangorn_rs.Entmoot.Encryption
use fangorn_rs.Entmoot.Encryption.{match_num_chars, cleanup, confirm}
use fangorn_rs.Entmoot.Decryption.{prepare_witness_string}
use fangorn_rs.Entmoot.Run.{break, run, run_loop}
use fangorn_rs.Entmoot.Invariant.{KeptFlow}
use fangorn_rs.Entmoot.Invariant.Reached.{run-new-KeptFlow}
use fangorn_rs.Entmoot.Leaving.{escape, run_loop-escape}
use fangorn_rs.Entmoot.Digits.{Numeral, pressed, pressed-Numeral}
use fangorn_rs.Entmoot.Strings.{AreContents}
use fangorn_rs.Entmoot.Strings.Confirmed.{entries_of, confirm-pairs_of}
use fangorn_rs.Entmoot.Strings.Prepared.{Signs, prepare_witness_string-witnesses_of}

abbrev start : App env
start = new env [] tt (codes "ticket")

abbrev plain : KeyCode → Event
plain code = press (record { code = code; modified = false })

-- Encrypt, the file, the password intent, "ab", and the quit key on the main screen.
abbrev encrypting : List Event
encrypting =
    plain down
    ∷ plain down
    ∷ plain enter
    ∷ plain enter
    ∷ plain (char b' ')
    ∷ plain enter
    ∷ plain (char b'a')
    ∷ resize
    ∷ plain (char b'b')
    ∷ plain enter
    ∷ plain (char b'q')
    ∷ []

encrypted :
    (last : App env) × (run env ss58 hex encrypting start ≡ ok (break last))
    × (last.world ≡ codes "Password(ab)" ∷ [])
unfolding run new split file_name
encrypted = (_, refl, refl)

run-new-KeptFlow_example : KeptFlow env (run env ss58 hex encrypting start)
run-new-KeptFlow_example = run-new-KeptFlow env ss58 hex [] tt (codes "ticket") encrypting

run_loop-escape_example :
    (last : App env) × (run_loop env ss58 hex
        (press (escape env ss58 hex false) ∷ press (escape env ss58 hex true) ∷ [])
        (record start { current_screen = decrypt_screen })
      ≡ ok (break last))
    × (last.current_screen ≡ main)
run_loop-escape_example =
    run_loop-escape env ss58 hex false true (record start { current_screen = decrypt_screen }) []

abbrev keys : List KeyEvent
keys =
    record { code = char b'0'; modified = false }
    ∷ record { code = char b'4'; modified = false }
    ∷ record { code = char b'0'; modified = false }
    ∷ record { code = char b'x'; modified = false }
    ∷ record { code = backspace; modified = false }
    ∷ []

pressed-Numeral_example :
    Numeral (Encryption.text_of env (pressed env typing keys start).token_count_input)
unfolding new
pressed-Numeral_example = pressed-Numeral env typing keys start ([], refl, tt)

abbrev pub entered : App env
entered = record start {
  current_screen = encryption_input_screen;
  display_password_input = true;
  display_contract_address_input = true;
  sr25519_intent = true;
  file_path = some (codes "notes/today.txt");
  password_input = record (start.password_input) { area = codes "a(b)c" };
  contract_address_input = record (start.contract_address_input) { area = account };
  token_count_input = record (start.token_count_input) { area = codes "40" };
}

pub contents : AreContents (entries_of env entered)
contents = record {
  password = record { balanced = refl; single = refl };
  contract_address = record { balanced = refl; single = refl };
  token_count = refl;
}

confirm-pairs_of_example :
    (confirm env entered
      ≡ ok (
          cleanup env (record entered {
            world =
                (codes "Password(a(b)c) && Psp22(" ++ (account ++ codes ", 40) && Sr25519()")) ∷ [];
          })))
    × (parse_intent_string nom
          (codes "Password(a(b)c) && Psp22(" ++ (account ++ codes ", 40) && Sr25519()"))
        ≡ ok (
            (codes "Password", codes "a(b)c")
            ∷ (codes "Psp22", account ++ codes ", 40")
            ∷ (codes "Sr25519", [])
            ∷ []))
unfolding new
confirm-pairs_of_example =
    confirm-pairs_of env nom true true (codes "notes/today.txt") entered
      ((codes "Password(a(b)c) && Psp22(" ++ (account ++ codes ", 40) && Sr25519()")) ∷ []) refl
      refl (refl, refl, refl) contents refl refl

abbrev pub asking : App env
asking = record start {
  current_screen = decrypt_screen;
  display_password_input = true;
  display_contract_address_input = true;
  sr25519_intent = true;
  substrate_backend = some none;
}

unfoldable pub signs : Signs env ss58 hex asking (codes "word") 5
unfolding new load_mnemonic trim_matches trim
signs = record {
  mnemonic = codes "word";
  backend = none;
  loaded = refl;
  made = refl;
  connected = refl;
  read = refl;
}

abbrev signature : Text
signature = hex.encode (env.sign (codes "word") (to_le_bytes 4 5))

prepare_witness_string-witnesses_of_example :
    (t : Text) × (prepare_witness_string env ss58 hex (codes "pw") asking
      ≡ ok (t, record asking { substrate_backend = some (some (codes "word")) }))
    × (parse_witnesses t ≡ codes "pw" ∷ account ∷ (account ++ signature) ∷ [])
unfolding signs is_whitespace new
prepare_witness_string-witnesses_of_example =
    prepare_witness_string-witnesses_of env ss58 hex true true true (codes "pw") asking
      (codes "word") 5 signs refl refl refl refl
      (λ _. record { starts = refl; ends = refl; single = refl })
      (record { starts = refl; ends = refl; single = refl })
      (record { starts = refl; ends = refl; single = refl })
