-- ===== src/Volsync/Secrets/Readable.antt =====
-- The key of a generated secret can be read back.
use Prim.Native.Char.{Char}
use Prim.Native.String.{count}
use text.Mathlib.TextLemmas.{length-cons}
use mock_storage_operator.Prelude.{
  ℕ, suc, ◌+◌, ◌*◌, ◌/◌, ◌%◌, ◌<◌, ◌≡◌, refl, ap, ◌∙◌, Bool, true, false, String, ◌<>◌, ◌==◌,
  Option, none, some, List, [], ◌∷◌, eqb, arith, if◌then◌else◌, all_below_sound,
}
use mock_storage_operator.Prelude.Dict.{lookup}
use mock_storage_operator.Exec.{Exec, ok}
use mock_storage_operator.Exec.Ensures.{
  Ensures, Ensures-at, Ensures-bind, Ensures-pure, Ensures-self,
}
use mock_storage_operator.Volsync.{VsHandler}
use mock_storage_operator.Volsync.Secrets.{
  tls_psk_data_size, hex_table, char_of, encode_to_string, Secret, gen_tls_pre_shared_key,
  generate_volsync_replication_secret,
}

-- the place of a character in a table, from `i` on
abbrev pub place_from : ℕ → Char → String → Option ℕ
place_from i c String.[] = none
place_from i c (String.◌∷◌ d s) =
    let rest = place_from (suc i) c s in if String.◌∷◌ c "" == String.◌∷◌ d "" then some i else rest

-- the value of a hexadecimal digit
abbrev pub value_of : Char → Option ℕ
value_of c = place_from 0 c hex_table

-- a byte before the others, from its two digits
abbrev pub byte_before : Option ℕ → Option ℕ → Option (List ℕ) → Option (List ℕ)
byte_before (some high) (some low) (some bytes) = some ((high * 16 + low) ∷ bytes)
byte_before none low bytes = none
byte_before (some high) none bytes = none
byte_before (some high) (some low) none = none

-- the bytes that a hexadecimal text stands for
unfoldable pub decode : String → Option (List ℕ)
decode String.[] = some []
decode (String.◌∷◌ c String.[]) = none
decode (String.◌∷◌ c (String.◌∷◌ d s)) = byte_before (value_of c) (value_of d) (decode s)

abbrev pub AllBytes : List ℕ → Type 0
AllBytes [] = Unit {0}
AllBytes (b ∷ bytes) = (b < 256) × AllBytes bytes

abbrev pub length : List ℕ → ℕ
length [] = 0
length (b ∷ bytes) = 1 + length bytes

abbrev names : ℕ → Option ℕ → Bool
names d none = false
names d (some e) = eqb e d

names-some : (d : ℕ) (o : Option ℕ) → names d o ≡ true → o ≡ some d
names-some d none e = ground (arith, e)
names-some d (some k) e = ap some (ground (arith, e))

value_of-char_of : (d : ℕ) → d < 16 → value_of (char_of d hex_table) ≡ some d
value_of-char_of d h =
    names-some d _ (all_below_sound 16 (λ k. names k (value_of (char_of k hex_table))) refl d h)

same_byte :
    (b : ℕ) (bytes : List ℕ)
    → Path (Option (List ℕ)) (some (((b / 16) * 16 + b % 16) ∷ bytes)) (some (b ∷ bytes))
same_byte b bytes = let e : (b / 16) * 16 + b % 16 ≡ b = omega arith in ap (λ k. some (k ∷ bytes)) e

decode-encode_to_string :
    (bytes : List ℕ) → AllBytes bytes → decode (encode_to_string bytes) ≡ some bytes
unfolding decode encode_to_string
decode-encode_to_string [] h = refl
decode-encode_to_string (b ∷ bytes) (small, h) = rw (value_of-char_of (b / 16) (omega arith)) (
    rw (value_of-char_of (b % 16) (omega arith))
      (rw (decode-encode_to_string bytes h) (same_byte b bytes)))

count-encode_to_string : (bytes : List ℕ) → count (encode_to_string bytes) ≡ 2 * length bytes
unfolding encode_to_string
count-encode_to_string [] = refl
count-encode_to_string (b ∷ bytes) =
    length-cons (char_of (b / 16) hex_table) _
    ∙ ap suc (length-cons (char_of (b % 16) hex_table) (encode_to_string bytes))
    ∙ ground (arith, count-encode_to_string bytes)

-- a generated secret: the bytes that were read, and the text of them in the secret
pub record Generated {W : Type 0} (read_random : ℕ → Exec W (List ℕ)) (v : VsHandler)
    (secret_name : String) (before after : W) (secret : Secret) : Type 0 where
  pub bytes : List ℕ
  pub key : String
  pub was_read : read_random tls_psk_data_size before ≡ (ok bytes, after)
  pub in_owner_namespace : secret.namespace ≡ v.owner.namespace
  pub under_name : secret.name ≡ secret_name
  pub holds_key : lookup "psk.txt" secret.string_data ≡ some ("volsyncmock:" <> key)
  pub decodes : decode key ≡ some bytes
  pub has_digits : count key ≡ 128

module _ {W : Type 0} (read_random : ℕ → Exec W (List ℕ)) where
  gen_key-Ensures :
      (w : W)
      → Ensures (gen_tls_pre_shared_key read_random) w (λ key w'.
        (bytes : List ℕ) × (read_random tls_psk_data_size w ≡ (ok bytes, w'))
        × (key ≡ encode_to_string bytes))
  unfolding gen_tls_pre_shared_key
  gen_key-Ensures w =
      Ensures-bind (Ensures-self (read_random tls_psk_data_size) w)
        λ bytes w' read. Ensures-pure _ (bytes, read, refl)

  -- Where generateVolSyncReplicationSecret returns a secret, it has the given name in the owner's
  -- namespace, and its key is 128 hexadecimal digits that read back as the 64 random bytes; the
  -- source of randomness fills what it is given with bytes.
  pub generate_volsync_replication_secret-Generated :
      ((n : ℕ) (w w' : W) (bytes : List ℕ)
        → read_random n w ≡ (ok bytes, w')
        → AllBytes bytes × (length bytes ≡ n))
      → (v : VsHandler) (secret_name : String) (w w' : W) (secret : Secret)
      → generate_volsync_replication_secret read_random v secret_name w ≡ (ok secret, w')
      → Generated read_random v secret_name w w' secret
  unfolding generate_volsync_replication_secret lookup
  generate_volsync_replication_secret-Generated fills v secret_name w w' secret returned =
      Ensures-at {Q = λ s t. Generated read_random v secret_name w t s}
        (Ensures-bind (gen_key-Ensures w) λ key t (bytes, read, is_key). Ensures-pure _ (record {
          bytes = bytes;
          key = key;
          was_read = read;
          in_owner_namespace = refl;
          under_name = refl;
          holds_key = refl;
          decodes = ap decode is_key ∙ decode-encode_to_string bytes (fills _ w t bytes read).0;
          has_digits =
              ap count is_key
              ∙ count-encode_to_string bytes
              ∙ ap (λ n. 2 * n) (fills _ w t bytes read).1;
        }))
        returned
