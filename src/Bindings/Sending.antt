-- ===== src/Bindings/Sending.antt =====
-- What `send_payment` answers (simln-lib/src/lnd.rs, cln.rs, eclair.rs and ldk_server.rs), and the
-- payment hashes that are read from text.
use sim_ln.Prelude.{
  ℕ, ◌≡◌, refl, ltb, ◌==◌, List, [], ◌∷◌, Option, none, some, Result, ok, err, String, arith,
  length, if-cases, and_then, ok_or, ◌^◌, ==_iff,
}
use sim_ln.Simulation.Types.{
  LightningError, send_payment_error, permanent_error, invalid_payment_hash,
}
use sim_ln.Bindings.Types.{payment_hash_of, string_to_payment_hash}
use sim_ln.Bindings.Lnd.{
  Code, unavailable, other_code, status_to_lightning_error, send_payment as lnd_send, first_payment,
  map_err,
}
use sim_ln.Bindings.Cln.{send_error, send_payment as cln_send}
use sim_ln.Bindings.Eclair.{PaymentPart, first_hash, send_payment as eclair_send}
use sim_ln.Bindings.LdkServer.{
  LdkServerErrorCode, ldk_server_error_to_send_error, send_payment as ldk_send,
}

-- A hash of 32 bytes, or one of the three errors.
abbrev pub IsSent : Result (List ℕ) LightningError → Type 0
IsSent (ok hash) = length hash ≡ 32
IsSent (err send_payment_error) = Unit
IsSent (err permanent_error) = Unit
IsSent (err invalid_payment_hash) = Unit
IsSent (err _) = ⊥

payment_hash_of-IsSent : (bytes : List ℕ) → IsSent (payment_hash_of bytes)
unfolding payment_hash_of
payment_hash_of-IsSent bytes =
    if-cases IsSent (length bytes == 32) (ok bytes) (err invalid_payment_hash)
      ((==_iff (length bytes) 32).0) (λ _. tt)

string_to_payment_hash-IsSent :
    (decode : String → Option (List ℕ)) (hash : String)
    → IsSent (string_to_payment_hash decode hash)
unfolding string_to_payment_hash
string_to_payment_hash-IsSent decode hash = go (decode hash)
  where
    go : (o : Option (List ℕ)) → IsSent (and_then (ok_or o invalid_payment_hash) payment_hash_of)
    go none = tt
    go (some bytes) = payment_hash_of-IsSent bytes

and_then-IsSent :
    {A : Type 0} (r : Result A Code) (f : A → Result (List ℕ) LightningError)
    → ((a : A) → IsSent (f a))
    → IsSent (and_then (map_err status_to_lightning_error r) f)
unfolding status_to_lightning_error
and_then-IsSent (ok a) f h = h a
and_then-IsSent (err unavailable) f h = tt
and_then-IsSent (err other_code) f h = tt

-- Eclair panics where no part of a payment that it has sent is listed.
abbrev pub EclairSent :
    Option String
    → (String → Option (List PaymentPart))
    → Option (Result (List ℕ) LightningError)
    → Type 0
EclairSent sendtonode getsentinfo (some r) = IsSent r
EclairSent sendtonode getsentinfo none =
    (uuid : String) × (sendtonode ≡ some uuid) × (getsentinfo uuid ≡ some [])

module _ (decode : String → Option (List ℕ)) where
  first_payment-IsSent : (message : Option String) → IsSent (first_payment decode message)
  first_payment-IsSent none = tt
  first_payment-IsSent (some hash) = string_to_payment_hash-IsSent decode hash

  lnd-IsSent :
      (amount : ℕ) (response : Result (Unit {0}) Code) (message : Result (Option String) Code)
      → IsSent (lnd_send decode amount response message)
  unfolding lnd_send
  lnd-IsSent amount response message =
      if-cases IsSent (ltb amount (2 ^ 63)) _ (err send_payment_error)
        (λ _.
          and_then-IsSent response _
            (λ _. and_then-IsSent message (first_payment decode) first_payment-IsSent))
        (λ _. tt)

  ldk-IsSent : (answer : Result String LdkServerErrorCode) → IsSent (ldk_send decode answer)
  unfolding ldk_send ldk_server_error_to_send_error
  ldk-IsSent (ok payment_id) = string_to_payment_hash-IsSent decode payment_id
  ldk-IsSent (err LdkServerErrorCode.lightning_code) = tt
  ldk-IsSent (err LdkServerErrorCode.internal_code) = tt
  ldk-IsSent (err LdkServerErrorCode.internal_server_code) = tt
  ldk-IsSent (err LdkServerErrorCode.auth_code) = tt
  ldk-IsSent (err LdkServerErrorCode.invalid_request_code) = tt

  eclair-EclairSent :
      (sendtonode : Option String) (getsentinfo : String → Option (List PaymentPart))
      → EclairSent sendtonode getsentinfo (eclair_send decode sendtonode getsentinfo)
  unfolding eclair_send
  eclair-EclairSent none getsentinfo = tt
  eclair-EclairSent (some uuid) getsentinfo = go (getsentinfo uuid) refl
    where
      go :
          (o : Option (List PaymentPart))
          → getsentinfo uuid ≡ o
          → EclairSent (some uuid) getsentinfo (first_hash decode o)
      go none e = tt
      go (some []) e = (uuid, refl, e)
      go (some (part ∷ parts)) e = string_to_payment_hash-IsSent decode part.payment_hash

cln-IsSent : (answer : Result (List ℕ) String) → IsSent (cln_send answer)
unfolding cln_send send_error
cln-IsSent (ok payment_hash) = payment_hash_of-IsSent payment_hash
cln-IsSent (err message) =
    if-cases (λ e. IsSent (err e)) _ permanent_error send_payment_error (λ _. tt) (λ _. tt)

-- Whatever the node answers, `send_payment` of each binding answers a hash of exactly 32 bytes, or
-- a send error, a permanent error or an invalid payment hash, and no other error. Only eclair's
-- can panic, exactly where the node has sent a payment and then lists no part of it.
pub send_payment-IsSent :
    (decode : String → Option (List ℕ)) (amount : ℕ) (response : Result (Unit {0}) Code)
    (message : Result (Option String) Code) (key_send : Result (List ℕ) String)
    (sendtonode : Option String) (getsentinfo : String → Option (List PaymentPart))
    (spontaneous_send : Result String LdkServerErrorCode)
    → IsSent (lnd_send decode amount response message)
      × IsSent (cln_send key_send)
      × EclairSent sendtonode getsentinfo (eclair_send decode sendtonode getsentinfo)
      × IsSent (ldk_send decode spontaneous_send)
send_payment-IsSent decode amount response message key_send sendtonode getsentinfo send = (
  lnd-IsSent decode amount response message,
  cln-IsSent key_send,
  eclair-EclairSent decode sendtonode getsentinfo,
  ldk-IsSent decode send,
)

-- A payment hash of 32 bytes is read back from the text that it is encoded to, if the decoder of
-- hexadecimal digits undoes the encoder on it.
pub string_to_payment_hash-encode :
    (decode : String → Option (List ℕ)) (encode : List ℕ → String) (hash : List ℕ)
    → decode (encode hash) ≡ some hash
    → length hash ≡ 32
    → string_to_payment_hash decode (encode hash) ≡ ok hash
unfolding string_to_payment_hash
string_to_payment_hash-encode decode encode hash law n = ground arith
