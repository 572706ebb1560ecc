-- ===== src/Entmoot/Desk.antt =====
-- A concrete environment for the examples about entmoot/src: text areas that are their line with the
-- cursor at the end, an explorer that stands on one file, and a world that is the list of the intent
-- strings that were encrypted and of the witness strings that were sent.
use fangorn_rs.Prelude.{
  ℕ, ◌-◌, ◌≡◌, refl, ap, sym, ◌∙◌, Bool, true, false, Option, none, some, List, [], ◌∷◌, ◌++◌, take,
  length, replicate,
}
use fangorn_rs.Rust.Text.{Text, codes}
use fangorn_rs.Entmoot.Env.{Env, KeyCode, esc, enter, tab, up, down, right, backspace, other, char}
use fangorn_rs.Entmoot.Digits.{Typing}

abbrev input_code : KeyCode → Bool → Text → Text
input_code (char c) false t = t ++ c ∷ []
input_code (char c) true t = t
input_code backspace m t = take (length t - 1) t
input_code esc m t = t
input_code enter m t = t
input_code tab m t = t
input_code up m t = t
input_code down m t = t
input_code right m t = t
input_code other m t = t

-- The address of every signer.
abbrev pub account : Text
account = replicate 48 b'5'

abbrev pub env : Env
env = record {
  World = List Text;
  Area = Text;
  blank = [];
  input = λ key t. input_code key.code key.modified t;
  lines = λ t. t ∷ [];
  Explorer = Unit {0};
  current_path = λ e. codes "notes/today.txt";
  current_is_file = λ e. true;
  explore = λ key e. some e;
  Key = ℕ;
  open_keystore = λ w. some w;
  generate_key = λ w. some w;
  list_keys = λ w. some (7 ∷ []);
  debug_ss58 = λ k. k ∷ [];
  Signer = Text;
  read_dir = λ path w. some (
      some (record { path = codes "tmp/keystore/old"; is_file = false })
      ∷ none
      ∷ some (record { path = codes "tmp/keystore/key"; is_file = true })
      ∷ []);
  read_to_string = λ path w. some (codes " \"word\" ");
  from_phrase = λ t. some t;
  address = λ s. account;
  sign = λ s message. replicate 64 7;
  Backend = Option Text;
  connect = λ w. some none;
  update_signer = λ s b. some s;
  nonce = λ b key w. some 5;
  handle_encrypt = λ call w. some (w ++ call.intent_str ∷ []);
  handle_decrypt = λ call w. some (w ++ call.witness_string ∷ []);
}

pub take-all_of : (t : Text) → take (length t) t ≡ t
take-all_of [] = refl
take-all_of (c ∷ t) = ap (λ s. c ∷ s) (take-all_of t)

abbrev pub typing : Typing env
typing = record {
  AtEnd = λ a t. a ≡ t;
  blank-AtEnd = refl;
  lines-AtEnd = λ a t e. ap (λ s. s ∷ []) e;
  char-AtEnd = λ a t c e d. ap (λ s. s ++ c ∷ []) e;
  modified-AtEnd = λ a t c e d. (length t, e ∙ sym (take-all_of t));
  backspace-AtEnd = λ a t m e. (length t - 1, ap (λ s. take (length s - 1) s) e);
}
