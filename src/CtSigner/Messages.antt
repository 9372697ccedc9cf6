-- ===== src/CtSigner/Messages.antt =====
-- The byte strings that are hashed, taken apart: which fields they determine.
use zee_k_verifier.Prelude.{
  ℕ, List, [], ◌∷◌, ◌++◌, map, replicate, length, ◌<◌, ◌^◌, Bytes, be_bytes, ◌≡◌, refl, ap, sym,
  ◌∙◌, arith, length-append, length-be_bytes, append-injective, append-injective_last,
  be_bytes-injective, All,
}
use zee_k_verifier.Signing.Message.{array, new, build}
use zee_k_verifier.Signing.Message.Laws.{encodings, encoding, build-add_all}
use zee_k_verifier.CtSigner.{chain_id_bytes, ct_message, batch_message}

pub length-chain_id_bytes : (chain_id : ℕ) → length (chain_id_bytes chain_id) ≡ 32
unfolding chain_id_bytes
length-chain_id_bytes chain_id =
    omega (arith, length-append (replicate 28 0) (be_bytes 4 chain_id), length-be_bytes 4 chain_id)

pub chain_id_bytes-injective :
    (n m : ℕ) → n < 2 ^ 32 → m < 2 ^ 32 → chain_id_bytes n ≡ chain_id_bytes m → n ≡ m
unfolding chain_id_bytes
chain_id_bytes-injective n m h h' e =
    be_bytes-injective 4 n m h h'
      (append-injective (replicate 28 0) (be_bytes 4 n) (replicate 28 0) (be_bytes 4 m) refl e).1

same_prefix :
    (h h' : Bytes) (ty ty' sz sz' : ℕ)
    → length h ≡ length h'
    → length ((h ++ ty ∷ []) ++ sz ∷ []) ≡ length ((h' ++ ty' ∷ []) ++ sz' ∷ [])
same_prefix h h' ty ty' sz sz' e = omega (
  arith,
  length-append (h ++ ty ∷ []) (sz ∷ []),
  length-append (h' ++ ty' ∷ []) (sz' ∷ []),
  length-append h (ty ∷ []),
  length-append h' (ty' ∷ []),
)

-- What a ciphertext message binds.
pub record SameFields (ct_hash ct_hash' : Bytes) (ct_type ct_type' sz sz' : ℕ) (acc acc' : Bytes)
    (chain chain' : ℕ) (contract contract' : Bytes) : Type 0 where
  pub ct_hash_eq : ct_hash ≡ ct_hash'
  pub ct_type_eq : ct_type ≡ ct_type'
  pub sz_eq : sz ≡ sz'
  pub acc_eq : acc ≡ acc'
  pub chain_eq : chain ≡ chain'
  pub contract_eq : contract ≡ contract'

-- The message of a ciphertext determines every field, the account of any length included, if the
-- hashes have one length, the contracts have one length and the chain ids are 32-bit integers.
pub build-ct_message-injective :
    (ct_hash ct_hash' : Bytes) (ct_type ct_type' sz sz' : ℕ) (acc acc' : Bytes) (chain chain' : ℕ)
    (contract contract' : Bytes)
    → length ct_hash ≡ length ct_hash'
    → length contract ≡ length contract'
    → chain < 2 ^ 32
    → chain' < 2 ^ 32
    → build (ct_message ct_hash ct_type sz acc chain contract)
      ≡ build (ct_message ct_hash' ct_type' sz' acc' chain' contract')
    → SameFields ct_hash ct_hash' ct_type ct_type' sz sz' acc acc' chain chain' contract contract'
unfolding build ct_message
build-ct_message-injective h h' ty ty' sz sz' acc acc' n n' con con' lh lc ln ln' e =
    let (e4, contracts) = append-injective_last _ con _ con' lc e in
    let (e3, chains) =
      append-injective_last _ (chain_id_bytes n) _ (chain_id_bytes n')
        (length-chain_id_bytes n ∙ sym (length-chain_id_bytes n')) e4 in
    let (e2, accs) =
      append-injective ((h ++ ty ∷ []) ++ sz ∷ []) acc ((h' ++ ty' ∷ []) ++ sz' ∷ []) acc'
        (same_prefix h h' ty ty' sz sz' lh) e3 in
    let (e1, szs) =
      append-injective_last (h ++ ty ∷ []) (sz ∷ []) (h' ++ ty' ∷ []) (sz' ∷ []) refl e2 in
    let (hashes, types) = append-injective_last h (ty ∷ []) h' (ty' ∷ []) refl e1 in
    record {
      ct_hash_eq = hashes;
      ct_type_eq = cc;
      sz_eq = cc;
      acc_eq = accs;
      chain_eq = chain_id_bytes-injective n n' ln ln' chains;
      contract_eq = contracts;
    }

-- The hashes of a batch, each of 32 bytes.
abbrev pub AreHashes : List Bytes → Type 0
AreHashes = All (λ h. length h ≡ 32)

encodings-injective :
    (hs hs' : List Bytes)
    → AreHashes hs
    → AreHashes hs'
    → encodings (map array hs) ≡ encodings (map array hs')
    → hs ≡ hs'
unfolding encodings encoding
encodings-injective [] [] p p' e = refl
encodings-injective [] (h' ∷ hs') p p' e =
    absurd (omega (arith, ap length e, p'.0, length-append h' (encodings (map array hs'))))
encodings-injective (h ∷ hs) [] p p' e =
    absurd (omega (arith, ap length e, p.0, length-append h (encodings (map array hs))))
encodings-injective (h ∷ hs) (h' ∷ hs') p p' e =
    let (first, rest) = append-injective h _ h' _ (p.0 ∙ sym p'.0) e in
    let later = encodings-injective hs hs' p.1 p'.1 rest in cc

build-batch_message : (hs : List Bytes) → build (batch_message hs) ≡ encodings (map array hs)
unfolding batch_message build
build-batch_message hs = build-add_all new (map array hs)

-- The message of a batch determines the list of its hashes, their number and order included.
pub build-batch_message-injective :
    (hs hs' : List Bytes)
    → AreHashes hs
    → AreHashes hs'
    → build (batch_message hs) ≡ build (batch_message hs')
    → hs ≡ hs'
build-batch_message-injective hs hs' p p' e =
    encodings-injective hs hs' p p' (sym (build-batch_message hs) ∙ e ∙ build-batch_message hs')
