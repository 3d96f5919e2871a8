-- ===== src/Oidc/Laws/Signing.antt =====
-- The OAuth2 state: the server reads back what it signed, and nothing else.
use Prim.Native.String.{◌++◌ as str_append}
use Prim.Native.String.append
use Prim.Native.Char.{code}
use text.Mathlib.TextEquality.{Char-path}
use antrea_ui.Password.Laws.Updates.{same_bytes_refl, same_bytes→eq}
use antrea_ui.Base.{
  String, ◌≡◌, refl, false, some, arith, Bytes, contains_code, cut, inl, inr, ◌==◌, Bool-cases,
  Option-cases, ◌↔◌, true,
}
use antrea_ui.Password.Store.{same_bytes}
use antrea_ui.Oidc.State.{
  full_stop, OAuth2State, Codec, sign, get_oauth2_state, parse_oauth2_state, two_parts,
  check_signature,
}

cut-append :
    (a b : String)
    → contains_code 46 a ≡ false
    → cut 46 (str_append a (String.◌∷◌ full_stop b)) ≡ some (a, b)
unfolding cut contains_code
cut-append String.[] b plain = rw append.nil refl
cut-append (String.◌∷◌ c a) b plain = rw (append.cons, cut-append a b (ground arith)) (ground arith)

cut_splits :
    (raw a b : String)
    → cut 46 raw ≡ some (a, b)
    → (raw ≡ str_append a (String.◌∷◌ full_stop b)) × (contains_code 46 a ≡ false)
unfolding cut contains_code
cut_splits String.[] a b e = absurd (ground arith)
cut_splits (String.◌∷◌ c s) a b e = elim (Bool-cases (code c == 46)) [
  | inl stop ↦
      let is_stop : c ≡ full_stop = Char-path c full_stop (ground arith) in
      let is_a : a ≡ String.[] = ground arith in
      let is_b : b ≡ s = ground arith in rw (is_a, is_b, is_stop, append.nil) (refl, refl)
  | inr other ↦ elim (Option-cases (cut 46 s)) [
    | inl n ↦ absurd (ground arith)
    | inr ((x, y), n) ↦
        let is_a : a ≡ String.◌∷◌ c x = ground arith in
        let is_b : b ≡ y = ground arith in
        let r = cut_splits s x y n in
        rw (is_a, is_b, append.cons, ← r.0) (refl, ground (arith, r.1))
  ]
]

module _ (codec : Codec) (secret : Bytes) where
  -- The text carries a signature with the secret, and says this state.
  pub record IsSigned (raw : String) (s : OAuth2State) : Type 0 where
    pub text : String
    pub signature : String
    pub parts : raw ≡ str_append text (String.◌∷◌ full_stop signature)
    pub plain : contains_code 46 text ≡ false
    pub two : contains_code 46 signature ≡ false
    pub state_bytes : Bytes
    pub decoded : codec.decode text ≡ some state_bytes
    pub valid : codec.decode signature ≡ some (codec.hmac secret text)
    pub says : codec.unmarshal state_bytes ≡ some s

  parse_signed :
      (raw : String) (s : OAuth2State)
      → IsSigned raw s
      → parse_oauth2_state codec secret raw ≡ some s
  unfolding parse_oauth2_state two_parts check_signature
  parse_signed raw s g =
      rw
        (
          g.parts,
          cut-append g.text g.signature g.plain,
          g.two,
          g.decoded,
          g.valid,
          same_bytes_refl (codec.hmac secret g.text),
        )
        g.says

  checked-IsSigned :
      (raw a b : String) (x y : Bytes) (s : OAuth2State)
      → cut 46 raw ≡ some (a, b)
      → contains_code 46 b ≡ false
      → codec.decode a ≡ some x
      → codec.decode b ≡ some y
      → check_signature codec secret a x y ≡ some s
      → IsSigned raw s
  unfolding check_signature
  checked-IsSigned raw a b x y s e two dx dy ok =
      let r = cut_splits raw a b e in
      elim (Bool-cases (same_bytes y (codec.hmac secret a))) [
        | inr bad ↦ absurd (ground arith)
        | inl good ↦
            let y_is : y ≡ codec.hmac secret a = same_bytes→eq y (codec.hmac secret a) good in
            record {
              text = a;
              signature = b;
              parts = r.0;
              plain = r.1;
              two = two;
              state_bytes = x;
              decoded = dx;
              valid = rw (← y_is) dy;
              says = ground arith;
            }
      ]

  parsed-IsSigned :
      (raw : String) (s : OAuth2State)
      → parse_oauth2_state codec secret raw ≡ some s
      → IsSigned raw s
  unfolding parse_oauth2_state two_parts
  parsed-IsSigned raw s e = elim (Option-cases (cut 46 raw)) [
    | inl n ↦ absurd (ground arith)
    | inr ((a, b), n) ↦ elim (Bool-cases (contains_code 46 b)) [
      | inl more ↦ absurd (ground arith)
      | inr two ↦ elim (Option-cases (codec.decode a)) [
        | inl d ↦ absurd (ground arith)
        | inr (x, dx) ↦ elim (Option-cases (codec.decode b)) [
          | inl d ↦ absurd (ground arith)
          | inr (y, dy) ↦ checked-IsSigned raw a b x y s n two dx dy (ground arith)
        ]
      ]
    ]
  ]

  -- A state cookie is accepted just when it is a text and, after its only full stop, the text's HMAC
  -- under the server's secret; the state is then the one that the text encodes. So a client cannot
  -- choose the state without the secret.
  pub parse_oauth2_state-IsSigned :
      (raw : String) (s : OAuth2State)
      → (parse_oauth2_state codec secret raw ≡ some s) ↔ IsSigned raw s
  parse_oauth2_state-IsSigned raw s = (parsed-IsSigned raw s, parse_signed raw s)

  -- The state that the server hands out is read back from the cookie that it sets, with the nonce
  -- that was drawn and the redirect target that was asked for, where both are UTF-8.
  pub parse-get_oauth2_state :
      (nonce redirect_url : String) (s : OAuth2State) (raw : String)
      → codec.valid_utf8 nonce ≡ true
      → codec.valid_utf8 redirect_url ≡ true
      → get_oauth2_state codec secret (some nonce) redirect_url ≡ some (s, raw)
      → (parse_oauth2_state codec secret raw ≡ some s)
        × (s.nonce ≡ nonce)
        × (s.redirect_url ≡ redirect_url)
  unfolding get_oauth2_state sign
  parse-get_oauth2_state nonce redirect_url s raw n u e =
      let state : OAuth2State = record { nonce = nonce; redirect_url = redirect_url } in
      let text = codec.encode (codec.marshal state) in
      let s_is : state ≡ s = ground arith in
      let raw_is : sign codec secret text ≡ raw = ground arith in
      (
        parse_signed raw s (
            rw (← s_is, ← raw_is)
              (record {
                text = text;
                signature = codec.encode (codec.hmac secret text);
                parts = refl;
                plain = codec.encode_plain (codec.marshal state);
                two = codec.encode_plain (codec.hmac secret text);
                state_bytes = codec.marshal state;
                decoded = codec.decode-encode (codec.marshal state);
                valid = codec.decode-encode (codec.hmac secret text);
                says = codec.unmarshal-marshal state n u;
              })),
        rw (← s_is) refl,
        rw (← s_is) refl,
      )
