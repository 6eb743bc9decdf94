-- ===== src/Tests/Toy.antt =====
-- A small instance of the cryptographic functions: numbers are printed in unary, and base64 writes
-- a code point in unary too. It satisfies all that tokens.py relies on.
use new_mud_codex.Shared.{
  ℕ, zero, suc, ◌+◌, ◌-◌, ◌%◌, ◌≡◌, refl, ◌∙◌, ap, true, Option, some, [], ◌∷◌, ◌++◌, arith,
  append_assoc, length, length-replicate, replicate, nat_eq, ◌==◌, ℕ_equality, if◌then◌else◌,
  All-append,
}
use new_mud_codex.Shared.Text.{Text, codes, Free}
use new_mud_codex.Tokens.{Crypto, Dict, Json, object, str, int, header}
use new_mud_codex.Tokens.Laws.{Laws}

unary : Text → Text
unary [] = []
unary (x ∷ xs) = replicate x b'A' ++ b'B' ∷ unary xs

pads : Text → ℕ
pads t = (4 - length (unary t) % 4) % 4

unfoldable pub encode : Text → Text
unfolding unary pads
encode t = unary t ++ replicate (pads t) b'='

decode_from : ℕ → Text → Text
decode_from n [] = []
decode_from n (x ∷ xs) = elim (nat_eq x b'B') [
  | true ↦ n ∷ decode_from 0 xs
  | _ ↦ elim (nat_eq x b'=') [ true ↦ decode_from n xs | _ ↦ decode_from (n + 1) xs ]
]

unfoldable pub decode : Text → Option Text
unfolding decode_from
decode t = some (decode_from 0 t)

abbrev pub claims : Dict
claims =
    (codes "aud", str (codes "new-mud-h5"))
    ∷ (codes "exp", int 9)
    ∷ (codes "sub", str (codes "7"))
    ∷ []

unfoldable pub load : Text → Option Json
load t = if length t == 2 then some (object header) else some (object claims)

unfoldable pub toy : Crypto
unfolding encode decode load
toy = record {
  root_key = codes "k";
  sha256_hexdigest = λ t. t;
  hmac_sha256 = λ key message. codes "s";
  urlsafe_b64encode = encode;
  urlsafe_b64decode = decode;
  dumps = λ d. replicate (length d) 1;
  loads = load;
  hex = λ u. replicate u b'0';
  uuid_of_hex = λ t. some (length t);
  str_of_uuid = λ u. replicate u b'0';
  str_of_int = λ n. replicate n b'1';
  int_of_str = λ t. some (length t);
  str_of_other = λ v. [];
}

Free-replicate : (n a c : ℕ) → (a ≡ c → ⊥) → Free c (replicate n a)
Free-replicate zero a c h = tt
Free-replicate (suc n) a c h = (h, Free-replicate n a c h)

unary-Free : (c : ℕ) → (b'A' ≡ c → ⊥) → (b'B' ≡ c → ⊥) → (t : Text) → Free c (unary t)
unfolding unary
unary-Free c a b [] = tt
unary-Free c a b (x ∷ xs) =
    All-append (λ y. y ≡ c → ⊥) (replicate x b'A') (b'B' ∷ unary xs) (Free-replicate x b'A' c a)
      (b, unary-Free c a b xs)

decode_from-A :
    (n x : ℕ) (rest : Text) → decode_from n (replicate x b'A' ++ rest) ≡ decode_from (n + x) rest
unfolding decode_from
decode_from-A n zero rest = ap (λ k. decode_from k rest) (omega arith)
decode_from-A n (suc x) rest =
    decode_from-A (n + 1) x rest ∙ ap (λ k. decode_from k rest) (omega arith)

decode_from-pads : (n k : ℕ) → decode_from n (replicate k b'=') ≡ []
unfolding decode_from
decode_from-pads n zero = refl
decode_from-pads n (suc k) = decode_from-pads n k

decode_from-unary : (t : Text) (k : ℕ) → decode_from 0 (unary t ++ replicate k b'=') ≡ t
unfolding decode_from unary
decode_from-unary [] k = decode_from-pads 0 k
decode_from-unary (x ∷ xs) k =
    ap (decode_from 0) (append_assoc (replicate x b'A') (b'B' ∷ unary xs) (replicate k b'='))
    ∙ decode_from-A 0 x (b'B' ∷ (unary xs ++ replicate k b'='))
    ∙ ap (◌∷◌ (0 + x)) (decode_from-unary xs k)
    ∙ ap (λ y. y ∷ xs) (omega arith)

pub toy-Laws : Laws toy
unfolding toy pads
toy-Laws = record {
  uuid_of_hex-hex = λ u. ap some (length-replicate u b'0');
  uuid_of_hex-str_of_uuid = λ u. ap some (length-replicate u b'0');
  int_of_str-str_of_int = λ n. ap some (length-replicate n b'1');
  hex-Free = λ u. Free-replicate u b'0' b'.' (omega arith);
  str_of_int-Free = λ n. Free-replicate n b'1' b'.' (omega arith);
  b64decode-b64encode = λ t. ap some (decode_from-unary t (pads t));
  b64_body = unary;
  b64_pads = pads;
  b64_shape = λ t. refl;
  b64_body-Free = unary-Free b'.' (omega arith) (omega arith);
  b64_body-Free_pad = unary-Free b'=' (omega arith) (omega arith);
  b64_pads-lt = λ t. omega arith;
  b64_length = λ t. omega arith;
}
