-- ===== src/Packet/Key.antt =====
-- `Packet::dedup_key` of packet.rs: which bytes it hashes, and what they determine.
use poholos.Prelude.{
  List, Option, [], ap, arith, is_some, none, refl, some, sym, ℕ, ◌++◌, ◌↔◌, ◌∙◌, ◌∷◌, ◌≡◌,
}
use poholos.Prelude.Words.{IsU16, IsU32, u16_to_be_bytes, u32_to_be_bytes}
use poholos.Fnv.Reference.{fnv1a, fnv64-eq-fnv1a}
use poholos.Fnv.{fnv64, fnv64_update, fnv_offset_basis}
use poholos.Packet.{Packet, WireId, as_slice, bool_byte, dedup_key, fold_dest}
use poholos.Packet.Valid.{IsDest, IsPacket, payload_of, payload_of-as_slice}

abbrev pub dest_bytes : Option WireId → List ℕ
dest_bytes none = []
dest_bytes (some dest) = u32_to_be_bytes dest

abbrev pub shape_byte : Option WireId → ℕ
shape_byte none = 0
shape_byte (some dest) = 1

-- The hashed fields one after the other: a shape flag, source, sequence number, destination if
-- there is one, and payload.
abbrev fields : WireId → ℕ → Option WireId → List ℕ → List ℕ
fields src seq dest bs =
    shape_byte dest ∷ (u32_to_be_bytes src ++ (u16_to_be_bytes seq ++ (dest_bytes dest ++ bs)))

unfoldable pub identity_bytes : Packet → List ℕ
identity_bytes p = fields p.src p.seq p.dest (as_slice p.payload)

fold-fields :
    (src : WireId) (seq : ℕ) (dest : Option WireId) (bs : List ℕ) (h : ℕ)
    → fnv64_update
        (fold_dest
          (fnv64_update
            (fnv64_update (fnv64_update h (bool_byte (is_some dest) ∷ [])) (u32_to_be_bytes src))
            (u16_to_be_bytes seq))
          dest)
        bs
      ≡ fnv64_update h (fields src seq dest bs)
unfolding fnv64_update fold_dest
fold-fields src seq none bs h = refl
fold-fields src seq (some dest) bs h = refl

-- The key, folded field by field, is the hash of the identity fields concatenated.
pub dedup_key-eq-fnv64 : (p : Packet) → dedup_key p ≡ fnv64 (identity_bytes p)
unfolding dedup_key identity_bytes fnv64
dedup_key-eq-fnv64 p = fold-fields p.src p.seq p.dest (as_slice p.payload) fnv_offset_basis

-- The key does not depend on the hop count.
pub dedup_key-ttl : (p : Packet) (t : ℕ) → dedup_key (record p { ttl = t }) ≡ dedup_key p
unfolding dedup_key
dedup_key-ttl p t = refl

u32_injective :
    (x y : ℕ) (r s : List ℕ)
    → IsU32 x
    → IsU32 y
    → u32_to_be_bytes x ++ r ≡ u32_to_be_bytes y ++ s
    → (x ≡ y) × (r ≡ s)
u32_injective x y r s hx hy e = ground arith

u16_injective :
    (x y : ℕ) (r s : List ℕ)
    → IsU16 x
    → IsU16 y
    → u16_to_be_bytes x ++ r ≡ u16_to_be_bytes y ++ s
    → (x ≡ y) × (r ≡ s)
u16_injective x y r s hx hy e = ground arith

fields_injective :
    (x x' : WireId) (y y' : ℕ) (d d' : Option WireId) (b b' : List ℕ)
    → IsU32 x
    → IsU32 x'
    → IsU16 y
    → IsU16 y'
    → IsDest d
    → IsDest d'
    → fields x y d b ≡ fields x' y' d' b'
    → (x ≡ x') × (y ≡ y') × (d ≡ d') × (b ≡ b')
fields_injective x x' y y' none none b b' hx hx' hy hy' hd hd' e = ground arith
fields_injective x x' y y' none (some d') b b' hx hx' hy hy' hd hd' e = absurd (ground arith)
fields_injective x x' y y' (some d) none b b' hx hx' hy hy' hd hd' e = absurd (ground arith)
fields_injective x x' y y' (some d) (some d') b b' hx hx' hy hy' hd hd' e = ground arith

-- The hashed bytes determine the message: two well-formed packets with the same bytes have the same
-- source, sequence number, destination and payload, so only a collision of the hash confuses two
-- messages.
pub identity_bytes_injective :
    {cap : ℕ} {p q : Packet}
    → IsPacket cap p
    → IsPacket cap q
    → identity_bytes p ≡ identity_bytes q
    → p ≡ record q { ttl = p.ttl }
unfolding identity_bytes
identity_bytes_injective {cap} {p} {q} v w e =
    let (a, b, c, d) =
      fields_injective p.src q.src p.seq q.seq p.dest q.dest (as_slice p.payload)
        (as_slice q.payload) v.src_fits w.src_fits v.seq_fits w.seq_fits v.dest_fits w.dest_fits
        e in
    let pay : p.payload ≡ q.payload =
      sym (payload_of-as_slice v.payload_fits)
      ∙ ap (payload_of cap) d
      ∙ payload_of-as_slice w.payload_fits in
    λ i. record { ttl = p.ttl; seq = b i; src = a i; dest = c i; payload = pay i }

-- The key of a well-formed packet is the FNV-1a hash, by the recurrence and the constants of its
-- draft, of the shape, the source, the sequence number, the destination and the payload; and two
-- well-formed packets have the same hashed bytes exactly when they are equal but for the hop
-- count.
pub dedup_key_lem :
    {cap : ℕ} {p q : Packet}
    → IsPacket cap p
    → IsPacket cap q
    → (dedup_key p ≡ fnv1a (identity_bytes p))
      × ((identity_bytes p ≡ identity_bytes q) ↔ (p ≡ record q { ttl = p.ttl }))
unfolding identity_bytes
dedup_key_lem {cap} {p} {q} v w = (
  dedup_key-eq-fnv64 p ∙ fnv64-eq-fnv1a (identity_bytes p),
  (identity_bytes_injective v w, λ e. ap identity_bytes e),
)
