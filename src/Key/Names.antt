-- ===== src/Key/Names.antt =====
-- What the server relies on of a key type: texts that have a key, which gives them back.
use gnat.Base.{
  ℕ, ◌≤◌, ◌≡◌, refl, sym, ap, ◌∙◌, arith, List, [], ◌++◌, All, Bool, true, Bool-cases, inl, inr,
  length, take, drop, take-append, replicate, ltb-false, ltb-true, length-append,
}
use gnat.Base.Outcome.{Outcome, done, aborted, thrown, undefined, out_of_fuel}
use gnat.Buffer.Writes.{stored}
use gnat.DataStore.Entries.{IsEquality}
use gnat.Fields.{StringBuffer, empty_buffer, of_memory}
use gnat.Key.{
  KeyType, text_keys, integer_keys, encode_text, decode_text, fill_buffer, text_prefix,
  integer_prefix,
}
use gnat.Key.Decoding.{IsChar, decode_string-of_memory}
use gnat.Key.Encoding.{IsPlain, encode_string-short}
use gnat.Key.Equality.{
  same_text_self, same_text_sound, text_keys-IsEquality, integer_keys-IsEquality,
}
use gnat.Status.{same_text}

-- `IsName` tells the texts that have a key, `key_of` gives it, and `starts` is what the prefix
-- matcher says of two texts.
pub record Names {K : Type 0} (keys : KeyType K) (IsName : List ℕ → Type 0) : Type 0 where
  pub key_of : List ℕ → K
  pub starts : List ℕ → List ℕ → Bool
  pub equality : IsEquality keys.same
  pub short : (t : List ℕ) → IsName t → length t ≤ 128
  pub encodes :
      (t rest : List ℕ) → IsName t → keys.encode_key (t ++ rest) (length t) ≡ done (key_of t)
  pub decodes :
      (t : List ℕ) → IsName t → keys.decode_key (key_of t) (empty_buffer 128) ≡ done (stored 128 t)
  pub full : (k l : K) → keys.full_key_matcher k l ≡ keys.same k l
  pub prefix :
      (t u : List ℕ)
      → IsName t
      → IsName u
      → keys.prefix_key_matcher (key_of t) (key_of u) ≡ starts t u

-- The text of a buffer that was decoded.
abbrev pub decoded_text : Outcome StringBuffer → List ℕ
decoded_text (done b) = take b.length_ b.data_
decoded_text aborted = []
decoded_text thrown = []
decoded_text undefined = []
decoded_text out_of_fuel = []

module _ {K : Type 0} (keys : KeyType K) (IsName : List ℕ → Type 0)
    (names : Names keys IsName) where
  decoded_text-key_of :
      (t : List ℕ)
      → IsName t
      → decoded_text (keys.decode_key (names.key_of t) (empty_buffer 128)) ≡ t
  decoded_text-key_of t h =
      ap decoded_text (names.decodes t h)
      ∙ take-append (length t) t (drop (length t) (replicate 128 0)) refl

  pub key_of-injective :
      (t u : List ℕ) → IsName t → IsName u → names.key_of t ≡ names.key_of u → t ≡ u
  key_of-injective t u h k e =
      sym (decoded_text-key_of t h)
      ∙ ap (λ (key : K). decoded_text (keys.decode_key key (empty_buffer 128))) e
      ∙ decoded_text-key_of u k

  -- The map's equality of keys is the equality of their texts.
  pub same-names :
      (t u : List ℕ)
      → IsName t
      → IsName u
      → keys.same (names.key_of t) (names.key_of u) ≡ same_text t u
  same-names t u h k = elim (Bool-cases (keys.same (names.key_of t) (names.key_of u))) [
    | inl same ↦
        let e : t ≡ u = key_of-injective t u h k (names.equality.sound _ _ same) in
        same ∙ sym (ap (same_text t) (sym e) ∙ same_text_self t)
    | inr differ ↦ elim (Bool-cases (same_text t u)) [
      | inl equal ↦
          let e : t ≡ u = same_text_sound t u equal in
          let again : keys.same (names.key_of t) (names.key_of u) ≡ true =
            ap (λ (v : List ℕ). keys.same (names.key_of t) (names.key_of v)) (sym e)
            ∙ names.equality.self (names.key_of t) in
          cc
      | inr other ↦ differ ∙ sym other
    ]
  ]

  -- A subscription to a text without a wildcard takes that text only.
  pub full-names :
      (t u : List ℕ)
      → IsName t
      → IsName u
      → keys.full_key_matcher (names.key_of t) (names.key_of u) ≡ same_text t u
  full-names t u h k = names.full (names.key_of t) (names.key_of u) ∙ same-names t u h k

-- String keys are the texts themselves.
abbrev pub IsTextName : List ℕ → Type 0
IsTextName t = length t ≤ 128

unfoldable pub text_names : Names text_keys IsTextName
unfolding encode_text decode_text fill_buffer
text_names = record {
  key_of = λ t. t;
  starts = text_prefix;
  equality = text_keys-IsEquality;
  short = λ t h. h;
  encodes = λ t rest h.
      rw
        (
          ltb-false (length (t ++ rest)) (length t) (omega (arith, length-append t rest)),
          take-append (length t) t rest refl,
        )
        refl;
  decodes = λ t h. rw (ltb-false 128 (length t) h) (
      ap (λ (n : ℕ). done (record { data_ = t ++ drop (length t) (replicate 128 0); length_ = n }))
        (omega arith));
  full = λ k l. refl;
  prefix = λ t u h k. refl;
}

-- Integer keys can be decoded with up to seven characters, none of them zero or negative.
pub record IsIntegerName (char_signed : Bool) (t : List ℕ) : Type 0 where
  pub seven : length t ≤ 7
  pub chars : All IsChar t
  pub plain : All (IsPlain char_signed) t

module _ (char_signed : Bool) where
  encode_key-front :
      (t rest : List ℕ)
      → IsIntegerName char_signed t
      → (integer_keys char_signed).encode_key (t ++ rest) (length t) ≡ done (of_memory t)
  encode_key-front t rest h =
      let front : take (length t) (t ++ rest) ≡ t = take-append (length t) t rest refl in
      encode_string-short char_signed (t ++ rest) (length t) (omega (arith, length-append t rest))
        (omega (arith, h.seven)) (rw front h.plain)
      ∙ ap (λ (xs : List ℕ). done (of_memory xs)) front

  pub integer_keys-Names : Names (integer_keys char_signed) (IsIntegerName char_signed)
  integer_keys-Names = record {
    key_of = of_memory;
    starts = λ t u. integer_prefix (of_memory t) (of_memory u);
    equality = integer_keys-IsEquality char_signed;
    short = λ t h. omega (arith, h.seven);
    encodes = encode_key-front;
    decodes = λ t h.
        decode_string-of_memory t (omega (arith, h.seven)) h.chars (empty_buffer 128) (omega arith)
        ∙ rw (ltb-true (length t) 8 (omega (arith, h.seven)));
    full = λ k l. refl;
    prefix = λ t u h k. refl;
  }
