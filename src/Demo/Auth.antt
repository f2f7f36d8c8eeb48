-- ===== src/Demo/Auth.antt =====
-- examples/rtvbp-demo-client/auth.go: generateJWT and loadPrivateKey. The embedded files, the packages pem
-- and x509, gonanoid and the JWT library are arguments; keys are `K`, blocks of PEM `B`.
use rtvbp_go.Common.{ℕ, ◌+◌, String, Option, none, some}
use rtvbp_go.Common.Act.{Result, good, bad}
use rtvbp_go.Proto.Errors.{Error, msg, wrap}

-- What ParsePKCS8PrivateKey gives: an RSA key, or a key of another kind.
pub data AnyKey (K : Type 0) : Type 0 where
  rsa : K → AnyKey K
  other_key : AnyKey K

-- The claims of the token, and its key id.
pub record Claims : Type 0 where
  pub exp : ℕ
  pub iat : ℕ
  pub iss : String
  pub aud : String
  pub sub : String
  pub jti : String
  pub kid : String

pub record KeyTools (F B K : Type 0) : Type 0 where
  pub read_file : String → Result Error F
  pub decode : F → Option B
  pub parse_pkcs1 : B → Result Error K
  pub parse_pkcs8 : B → Result Error (AnyKey K)
  pub new_id : Result Error String
  pub sign : Claims → K → Result Error String

-- `if err != nil { return fmt.Errorf(text, err) }`
abbrev and_then : {A B : Type 0} → String → Result Error A → (A → Result Error B) → Result Error B
and_then text (bad e) k = bad (wrap text e)
and_then text (good a) k = k a

module _ {F B K : Type 0} (tools : KeyTools F B K) where
  abbrev pkcs8_key : Error → Result Error (AnyKey K) → Result Error K
  pkcs8_key e (bad e2) = bad (wrap "failed to parse private key (tried both PKCS1 and PKCS8)" e)
  pkcs8_key e (good other_key) = bad (msg "key is not RSA private key")
  pkcs8_key e (good (rsa k)) = good k

  abbrev pkcs1_key : B → Result Error K → Result Error K
  pkcs1_key block (good k) = good k
  pkcs1_key block (bad e) = pkcs8_key e (tools.parse_pkcs8 block)

  abbrev block_key : Option B → Result Error K
  block_key none = bad (msg "failed to decode PEM block")
  block_key (some block) = pkcs1_key block (tools.parse_pkcs1 block)

  -- loadPrivateKey
  unfoldable pub load_private_key : String → Result Error K
  load_private_key filename =
      and_then "failed to read key file" (tools.read_file filename)
        λ data_bytes. block_key (tools.decode data_bytes)

  abbrev pub claims_at : ℕ → String → Claims
  claims_at now id = record {
    exp = now + 3600;
    iat = now;
    iss = "auth.babelforce.com";
    aud = "demo-account-123";
    sub = "com.babelforce.svc.telephony.realtime";
    jti = id;
    kid = "jwt-rsa-2048-v1";
  }

  -- generateJWT; `now` is the clock, in seconds.
  unfoldable pub generate_jwt : ℕ → Result Error String
  unfolding load_private_key
  generate_jwt now =
      and_then "failed to load private key" (load_private_key "keys/private_key.pem") λ key.
        and_then "failed to generate token ID" tools.new_id λ id.
          and_then "failed to sign token" (tools.sign (claims_at now id) key) λ token. good token
