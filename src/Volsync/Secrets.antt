-- ===== src/Volsync/Secrets.antt =====
-- internal/volsync/handler.go: generateVolSyncReplicationSecret and genTLSPreSharedKey, with
-- `hex.EncodeToString`. The source of randomness, `rand.Read`, is a parameter.
pub mod Readable
use Prim.Native.Char.{Char}
use mock_storage_operator.Prelude.{ℕ, zero, suc, ◌/◌, ◌%◌, ◌≡◌, refl, String, ◌<>◌, List, [], ◌∷◌}
use mock_storage_operator.Prelude.Dict.{Dict}
use mock_storage_operator.Exec.{Exec, pure, ◌>>=◌}
use mock_storage_operator.Volsync.{VsHandler}

-- tlsPSKDataSize
abbrev pub tls_psk_data_size : ℕ
tls_psk_data_size = 64

-- `hextable` of the package hex, and `hextable[i]`
abbrev pub hex_table : String
hex_table = "0123456789abcdef"

abbrev pub char_of : ℕ → String → Char
char_of i String.[] = "0"
char_of zero (String.◌∷◌ c s) = c
char_of (suc i) (String.◌∷◌ c s) = char_of i s

-- `hex.EncodeToString`
unfoldable pub encode_to_string : List ℕ → String
encode_to_string [] = ""
encode_to_string (b ∷ bytes) =
    String.◌∷◌ (char_of (b / 16) hex_table)
      (String.◌∷◌ (char_of (b % 16) hex_table) (encode_to_string bytes))

-- `corev1.Secret`, with the fields that are set
pub record Secret : Type 0 where
  pub namespace : String
  pub name : String
  pub string_data : Dict

module _ {W : Type 0} (read_random : ℕ → Exec W (List ℕ)) where
  -- genTLSPreSharedKey
  unfoldable pub gen_tls_pre_shared_key : Exec W String
  gen_tls_pre_shared_key = do
    psk_data ← read_random tls_psk_data_size
    pure (encode_to_string psk_data)

  -- generateVolSyncReplicationSecret
  unfoldable pub generate_volsync_replication_secret : VsHandler → String → Exec W Secret
  generate_volsync_replication_secret v secret_name = do
    tls_key ← gen_tls_pre_shared_key
    pure (record {
      namespace = v.owner.namespace;
      name = secret_name;
      string_data = ("psk.txt", "volsyncmock:" <> tls_key) ∷ [];
    })

encode_test : encode_to_string (0 ∷ 171 ∷ 255 ∷ []) ≡ "00abff"
unfolding encode_to_string
encode_test = refl
