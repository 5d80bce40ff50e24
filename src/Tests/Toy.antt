-- ===== src/Tests/Toy.antt =====
-- A cryptography and a map that satisfy the hypotheses on the packages outside of the repository,
-- and the data of the witnesses.
use phantom_grid.Prelude.{
  ℕ, zero, suc, ◌+◌, ◌%◌, ◌≡◌, refl, false, Option, none, some, [], ◌∷◌, ◌++◌, ◌==◌, if◌then◌else◌,
  length, replicate, arith, ap, sym, ◌∙◌,
}
use phantom_grid.Prelude.Bytes.{Bytes, codes}
use phantom_grid.Config.Spa.{DynamicSpaConfig, asymmetric}
use phantom_grid.Spa.Crypto.{Crypto, IsLawful}
use phantom_grid.Spa.Packet.{Entropy}
use phantom_grid.Spa.Packet.Create.{Fills}
use phantom_grid.Spa.MapLoader.{BpfOps, IsMap}
use phantom_grid.Spa.Handler.{HandlerConfig, HandlerState}

length-replicate : (n a : ℕ) → length (replicate n a) ≡ n
length-replicate zero a = refl
length-replicate (suc n) a = ap suc (length-replicate n a)

abbrev sum : Bytes → ℕ
sum [] = 0
sum (b ∷ bs) = b + sum bs

abbrev pub toy_crypto : Crypto
toy_crypto = record {
  hmac_sha1 = λ k m. replicate 20 (sum m % 256);
  hmac_sha256 = λ k m. replicate 32 (sum (k ++ m) % 256);
  sha256 = λ m. m;
  sign = λ k m. if length k == 64 then some (replicate 64 (sum m % 256)) else none;
  verify = λ p m s. if length p == 32 then some (length s == 64) else none;
  public = λ k. replicate 32 7;
}

pub toy_crypto-IsLawful : IsLawful toy_crypto
toy_crypto-IsLawful = record {
  hmac_sha1_size = λ k m. length-replicate 20 (sum m % 256);
  hmac_sha256_size = λ k m. length-replicate 32 (sum (k ++ m) % 256);
  sign_size =
      λ k m e. (replicate 64 (sum m % 256), ground arith, length-replicate 64 (sum m % 256));
  verify-sign = λ k m s e. ground (arith, length-replicate 64 (sum m % 256));
  verify_defined = λ p m s e. ground arith;
  public_size = λ k e. refl;
  verify_size = λ p m s e. ground arith;
}

-- A map of unlimited size.
abbrev pub toy_ops : BpfOps
toy_ops = record {
  Map = ℕ → Option ℕ;
  put = λ k v m. some (λ j. if j == k then some v else m j);
  remove = λ k m. some (λ j. if j == k then none else m j);
  find = λ k m. m k;
}

abbrev entry : ℕ → Option (ℕ → Option ℕ) → Option ℕ
entry k none = none
entry k (some m) = m k

pub toy_ops-IsMap : IsMap toy_ops
toy_ops-IsMap = record {
  find-put = λ k v m m' e. sym (ap (entry k) e) ∙ ground arith;
  find-put_ne = λ k v j w m m' e n h. ground (arith, ap (entry j) e);
  find-remove = λ k m m' e. sym (ap (entry k) e) ∙ ground arith;
}

abbrev pub toy_key : Bytes
toy_key = replicate 64 1

abbrev pub toy_public : Bytes
toy_public = replicate 32 7

abbrev pub toy_secret : Bytes
toy_secret = codes "secret"

abbrev pub toy_ip : Bytes
toy_ip = 10 ∷ 0 ∷ 0 ∷ 5 ∷ []

abbrev pub toy_config : DynamicSpaConfig
toy_config = record {
  mode = asymmetric;
  totp_time_step = 30;
  totp_tolerance = 1;
  totp_secret = toy_secret;
  public_key = [];
  private_key = [];
  public_keys = toy_public ∷ [];
  hmac_secret = [];
  hmac_secrets = [];
  totp_secrets = [];
  replay_window_seconds = 60;
  max_replay_entries = 1000;
  enable_obfuscation = false;
  obfuscation_key = [];
}

abbrev pub toy_entropy : Entropy
toy_entropy = record { size_byte = 3; padding = λ n. some (replicate n 9) }

abbrev pub toy_clock : ℕ → ℕ
toy_clock i = 1000

pub toy_entropy-Fills : Fills toy_entropy
toy_entropy-Fills n = (replicate n 9, refl, length-replicate n 9)

abbrev pub toy_map : ℕ → Option ℕ
toy_map k = none

abbrev pub toy_handler : HandlerConfig
toy_handler = record { spa_config = toy_config; static_token = codes "token" }

abbrev pub toy_state : HandlerState toy_crypto toy_ops
toy_state = record {
  cache = [];
  whitelist = some toy_map;
  log_chan = record { queue = []; capacity = 10 };
}
