-- ===== src/Secure/Examples.antt =====
-- A handshake and messages of src/secure with toy primitives, and the theorems at them.
use hacp.Common.{
  ℕ, zero, suc, ◌+◌, ◌%◌, ◌<◌, String, ◌≡◌, refl, subst, true, not, Bool, some, List, [], ◌∷◌, ◌++◌,
  All, ok, err, arith, contains, lookup, insert, erase, as_bytes, strip_prefix, decimal, hex_digit,
  contains_char,
}
use hacp.Canon.{write_value, canonical_json}
use hacp.Canon.Examples.{sample_crates}
use hacp.Secure.Wire.{
  encode_hex, decode_hex, validate, urn, SecureEnvelope, schema_violation, replay_rejected, hello,
  ack,
}
use hacp.Secure.Hex.{decode_hex-encode_hex}
use hacp.Secure.Crypto.{
  Primitives, EphemeralSecret, SessionKeys, ephemeral_public_key, sign, verify, establish, seal,
  open_with,
}
use hacp.Secure.Manager.{Libraries, SessionManager, bound_pending}
use hacp.Secure.Handshake.{Draw, handshake, initiate, respond, respond_once}
use hacp.Secure.Completion.{complete}
use hacp.Secure.Messages
use hacp.Secure.Messages.{open_authenticated}
use hacp.Secure.Calls.{initiates, seals, closes_context, run}
use hacp.Secure.Few.{HasFew}
use hacp.Secure.Bounds.{run-HasFew}
use hacp.Secure.Sequence.{Spends, seal-Spends, nonce96_injective}
use hacp.Secure.Agreement.{establish-agree}

-- What a test by `refl` has to unfold.
unfoldable pub wire : Unit {0}
unfolding encode_hex decode_hex validate urn canonical_json write_value contains lookup insert erase
    as_bytes strip_prefix decimal hex_digit contains_char establish seal open_with sign verify
    initiate respond respond_once complete open_authenticated Messages.seal bound_pending
wire = tt

abbrev pub repeat : ℕ → ℕ → List ℕ
repeat zero b = []
repeat (suc n) b = b ∷ repeat n b

abbrev drop : ℕ → List ℕ → List ℕ
drop zero bytes = bytes
drop (suc n) [] = []
drop (suc n) (b ∷ bytes) = drop n bytes

abbrev toy : Primitives
toy = record {
  ed25519_public = λ seed. seed;
  ed25519_sign = λ seed input. repeat 64 7;
  ed25519_verify = λ key input sig. true;
  x25519 = λ scalar point. repeat 32 9;
  x25519_base = repeat 32 1;
  hkdf = λ salt secret info n. some (repeat n 5);
  encrypt = λ key nonce aad text. some (repeat 16 0 ++ text);
  decrypt = λ key nonce aad text. some (drop 16 text);
}

abbrev pub lib : Libraries
lib = record { primitives = toy; canon = sample_crates; rfc3339 = λ s. true }

abbrev pub manager_of : String → SessionManager
manager_of local = record {
  local = local;
  identity = record { seed = repeat 32 3 };
  pending = [];
  active = [];
  seen_hellos = [];
  seen_hello_order = [];
  order = 0;
}

abbrev pub ann : String
ann = "urn:hacp:agent:ann"

abbrev pub bob : String
bob = "urn:hacp:agent:bob"

abbrev pub draw : Draw
draw = record { ephemeral = ok (record { scalar = repeat 32 2 }); nonce = ok (repeat 32 4) }

abbrev pub key : List ℕ
key = repeat 32 3

-- The hello of `ann`, and the answer of `bob`.
abbrev pub sent : SecureEnvelope
sent = record (handshake hello ann bob (repeat 32 9) (repeat 32 4)) {
  sig = some (encode_hex (repeat 64 7));
}

abbrev pub replied : SecureEnvelope
replied = record (handshake ack bob ann (repeat 32 9) (repeat 32 4)) {
  sid = some (encode_hex (repeat 16 5));
  sig = some (encode_hex (repeat 64 7));
}

abbrev waiting : SessionManager
waiting = (initiate lib (manager_of ann) bob "s-1" key draw).0

abbrev pub ready : SessionManager
ready = (complete lib waiting "s-1" replied).0

greets : (initiate lib (manager_of ann) bob "s-1" key draw).1 ≡ ok sent
unfolding wire
greets = refl

answers : (respond lib (manager_of bob) "s-1" sent key draw).1 ≡ ok replied
unfolding wire
answers = refl

completes : (complete lib waiting "s-1" replied).1 ≡ ok (encode_hex (repeat 16 5))
unfolding wire
completes = refl

replays : (Messages.seal lib ready (encode_hex (repeat 16 5)) 1 "" (1 ∷ [])).1 ≡ err replay_rejected
unfolding wire
replays = refl

seal-Spends_example :
    Spends ready
      (encode_hex (repeat 16 5))
      0
      (Messages.seal lib ready (encode_hex (repeat 16 5)) 0 "" (1 ∷ []))
seal-Spends_example = seal-Spends lib ready (encode_hex (repeat 16 5)) 0 "" (1 ∷ [])

decode_hex-encode_hex_example :
    decode_hex (encode_hex (0 ∷ 171 ∷ 255 ∷ [])) ≡ ok (0 ∷ 171 ∷ 255 ∷ [])
decode_hex-encode_hex_example =
    decode_hex-encode_hex (0 ∷ 171 ∷ 255 ∷ []) (omega arith, (omega arith, (omega arith, tt)))

odd_length : decode_hex "abc" ≡ err schema_violation
unfolding wire
odd_length = refl

abbrev first : ℕ
first = 258

nonce96_injective_example : first ≡ first
nonce96_injective_example = nonce96_injective first first (omega arith) (omega arith) refl

repeat-All : (n b : ℕ) → b < 256 → All (λ b. b < 256) (repeat n b)
repeat-All zero b h = tt
repeat-All (suc n) b h = (h, repeat-All n b h)

fresh-HasFew : HasFew (manager_of ann)
fresh-HasFew = record { few = λ peer. omega arith }

run-HasFew_example : HasFew (
    run lib (manager_of ann) (
      initiates bob "s-1" key draw
      ∷ seals "x" 0 "" (1 ∷ [])
      ∷ initiates bob "s-2" key draw
      ∷ closes_context "s-1"
      ∷ []))
run-HasFew_example =
    run-HasFew lib (manager_of ann)
      (initiates bob "s-1" key draw
        ∷ seals "x" 0 "" (1 ∷ [])
        ∷ initiates bob "s-2" key draw
        ∷ closes_context "s-1"
        ∷ [])
      fresh-HasFew

abbrev plus : List ℕ → List ℕ → List ℕ
plus [] bytes = bytes
plus (a ∷ xs) [] = a ∷ xs
plus (a ∷ xs) (b ∷ ys) = (a + b) % 256 ∷ plus xs ys

-- An exchange whose public keys differ.
abbrev adding : Primitives
adding = record toy { x25519 = plus }

abbrev secret : EphemeralSecret
secret = record { scalar = repeat 32 2 }

abbrev other : EphemeralSecret
other = record { scalar = repeat 32 3 }

abbrev agreed : String × SessionKeys
agreed = (encode_hex (repeat 16 5), record { i2r = repeat 32 5; r2i = repeat 32 5 })

toy_decrypts :
    (key nonce aad text ct : List ℕ)
    → toy.encrypt key nonce aad text ≡ some ct
    → toy.decrypt key nonce aad ct ≡ some text
toy_decrypts key nonce aad text ct h =
    let same : repeat 16 0 ++ text ≡ ct = cc h in
    subst (λ ct. some (drop 16 ct) ≡ some text) same refl

establish-agree_example :
    (establish adding other
        (ephemeral_public_key adding secret)
        (repeat 32 4)
        (repeat 32 4)
        "s-1"
        ann
        bob
      ≡ ok agreed)
    × ((from_initiator : Bool) (seq : ℕ) (aad text ct : List ℕ)
        → seal adding agreed.1 from_initiator seq aad text ≡ ok ct
        → open_with adding agreed.1 (not from_initiator) seq aad ct ≡ ok text)
unfolding wire
establish-agree_example =
    establish-agree adding secret other (repeat 32 4) (repeat 32 4) "s-1" ann bob refl toy_decrypts
      agreed refl
