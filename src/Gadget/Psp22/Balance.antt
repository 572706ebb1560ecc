-- ===== src/Gadget/Psp22/Balance.antt =====
-- What fangorn/src/gadget/psp22.rs writes into a statement, and what it checks of a balance.
use fangorn_rs.Prelude.{
  ℕ, ◌≤◌, ◌≡◌, refl, ap, ◌∙◌, some, List, [], ◌∷◌, ◌++◌, length, length-append, take, drop,
  take-all, take-append, drop-append, leb, arith,
}
use fangorn_rs.Rust.Outcome.{ok, ok_or, >>=-eq-ok, ok_or-eq-ok}
use fangorn_rs.Rust.Text.{Text, codes, trim, split, as_bytes, IsText, from_utf8-as_bytes}
use fangorn_rs.Rust.Bytes.{
  u128_max, to_le_bytes, from_le_bytes, parse_uint, length-to_le_bytes, from_le_bytes-to_le_bytes,
  parse_uint-le,
}
use fangorn_rs.Utils.{
  Ss58, decode_public_key, decode_contract_addr, length-decode_public_key,
  length-decode_contract_addr,
}
use fangorn_rs.Backend.{Backend}
use fangorn_rs.Gadget.Codec.{Bytes, decode-encode_end}
use fangorn_rs.Gadget.Psp22.{
  BalanceCodec, decode_balance, check_balance, verify_witness, parse_parts, parse_intent_data,
}

module _ (S : Type 0) (ss58 : Ss58) (codec : BalanceCodec)
    (backend : Backend S Bytes Text Bytes) where
  -- The statement that says `minimum` tokens of the contract at an address.
  abbrev pub statement_of : Text → ℕ → Bytes
  statement_of address minimum = decode_contract_addr ss58 address ++ to_le_bytes 16 minimum

  parse_parts-eq-ok :
      (parts : List Text) (st : Bytes)
      → parse_parts S ss58 codec backend parts ≡ ok st
      → (address minimum : Text) × (n : ℕ) × (parts ≡ address ∷ minimum ∷ [])
        × (parse_uint u128_max (trim minimum) ≡ some n)
        × (st ≡ statement_of (trim address) n)
  unfolding parse_parts
  parse_parts-eq-ok [] st h = cc
  parse_parts-eq-ok (a ∷ []) st h = cc
  parse_parts-eq-ok (a ∷ m ∷ x ∷ xs) st h = cc
  parse_parts-eq-ok (a ∷ m ∷ []) st h =
      let long = length-decode_contract_addr ss58 (trim a) in
      let h' = rw long at h in
      let (n, parsed, e) = >>=-eq-ok (ok_or (parse_uint u128_max (trim m)) _) _ h' in
      (a, m, n, refl, ok_or-eq-ok _ _ parsed, ground (arith, e))

  -- A statement is made exactly of the data `address,minimum` whose minimum is a u128: it has 48
  -- bytes, the address's account in the first 32 and the minimum in the last 16.
  pub parse_intent_data-eq-ok :
      (content : Text) (st : Bytes)
      → parse_intent_data S ss58 codec backend content ≡ ok st
      → (address minimum : Text) × (n : ℕ) × (split b',' content ≡ address ∷ minimum ∷ [])
        × (parse_uint u128_max (trim minimum) ≡ some n)
        × (length st ≡ 48)
        × (take 32 st ≡ decode_contract_addr ss58 (trim address))
        × (from_le_bytes (drop 32 st) ≡ n)
  unfolding parse_intent_data
  parse_intent_data-eq-ok content st h =
      let (a, m, n, cut, parsed, e) = parse_parts-eq-ok (split b',' content) st h in
      let addr = decode_contract_addr ss58 (trim a) in
      let long = length-decode_contract_addr ss58 (trim a) in
      let fits = parse_uint-le u128_max (trim m) n parsed in
      (
        a,
        m,
        n,
        cut,
        parsed,
        rw e (omega (arith, long, length-append addr (to_le_bytes 16 n), length-to_le_bytes 16 n)),
        ap (take 32) e ∙ take-append 32 addr (to_le_bytes 16 n) long,
        ap (λ b. from_le_bytes (drop 32 b)) e
            ∙ ap from_le_bytes (drop-append 32 addr (to_le_bytes 16 n) long)
            ∙ from_le_bytes-to_le_bytes 16 n (omega arith),
      )

  check_balance_lem :
      (world : S) (account : Bytes) (address : Text) (n balance flag : ℕ)
      → length account ≡ 32
      → n ≤ u128_max
      → backend.read
          (decode_contract_addr ss58 address)
          (codes "PSP22::balance_of")
          (some account)
          world
        ≡ ok (some (flag ∷ codec.scale.encode balance))
      → check_balance S ss58 codec backend world account (statement_of address n)
        ≡ ok (leb n balance)
  unfolding check_balance
  check_balance_lem world account address n balance flag long fits reads =
      let addr = decode_contract_addr ss58 address in
      let addr_long = length-decode_contract_addr ss58 address in
      let low = to_le_bytes 16 n in
      let whole : length (statement_of address n) ≡ 48 =
        omega (arith, addr_long, length-append addr low, length-to_le_bytes 16 n) in
      rw (
        long,
        whole,
        drop-append 32 addr low addr_long,
        take-append 32 addr low addr_long,
        take-all 16 low (length-to_le_bytes 16 n),
        from_le_bytes-to_le_bytes 16 n (omega arith),
        reads,
        decode-encode_end codec.scale balance,
        decode_balance,
      )

  -- Against the statement for `n` tokens of a contract, where the contract answers the balance of the
  -- account in the witness, verification succeeds and says whether the balance is at least `n`.
  pub verify_witness-statement_of :
      (world : S) (witness address : Text) (n balance flag : ℕ)
      → IsText witness
      → n ≤ u128_max
      → backend.read
          (decode_contract_addr ss58 address)
          (codes "PSP22::balance_of")
          (some (decode_public_key ss58 witness))
          world
        ≡ ok (some (flag ∷ codec.scale.encode balance))
      → verify_witness S ss58 codec backend world (as_bytes witness) (statement_of address n)
        ≡ ok (leb n balance)
  unfolding verify_witness
  verify_witness-statement_of world witness address n balance flag text fits reads =
      rw (from_utf8-as_bytes witness text) (
        check_balance_lem world (decode_public_key ss58 witness) address n balance flag
          (length-decode_public_key ss58 witness) fits reads)
