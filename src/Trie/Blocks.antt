-- ===== src/Trie/Blocks.antt =====
-- Slots of pointer blocks, as execution-engine/engine-storage/src/trie/mod.rs indexes them.
use casper_labs.Base.{
  ℕ, zero, suc, ◌<◌, ◌≡◌, refl, ap, ◌∙◌, false, none, some, [], ◌∷◌, length, ◌==◌, arith,
}
use casper_labs.Trie.{Pointer, slot, set_slot, replicate, empty_block, PointerBlock}

pub slot-set_slot :
    (block : PointerBlock) (i : ℕ) (p : Pointer)
    → i < length block
    → slot (set_slot block i p) i ≡ some p
unfolding slot set_slot
slot-set_slot [] i p h = elim h [ ]
slot-set_slot (o ∷ block) zero p h = refl
slot-set_slot (o ∷ block) (suc i) p h = slot-set_slot block i p (omega arith)

pub slot-set_slot_other :
    (block : PointerBlock) (i j : ℕ) (p : Pointer)
    → (j == i) ≡ false
    → slot (set_slot block i p) j ≡ slot block j
unfolding slot set_slot
slot-set_slot_other [] i j p h = refl
slot-set_slot_other (o ∷ block) zero zero p h = ground arith
slot-set_slot_other (o ∷ block) zero (suc j) p h = refl
slot-set_slot_other (o ∷ block) (suc i) zero p h = refl
slot-set_slot_other (o ∷ block) (suc i) (suc j) p h = slot-set_slot_other block i j p (ground arith)

pub length-set_slot :
    (block : PointerBlock) (i : ℕ) (p : Pointer) → length (set_slot block i p) ≡ length block
unfolding set_slot
length-set_slot [] i p = refl
length-set_slot (o ∷ block) zero p = refl
length-set_slot (o ∷ block) (suc i) p = ap suc (length-set_slot block i p)

pub slot-lt :
    (block : PointerBlock) (i : ℕ) {p : Pointer} → slot block i ≡ some p → i < length block
unfolding slot
slot-lt [] i h = ground arith
slot-lt (o ∷ block) zero h = omega arith
slot-lt (o ∷ block) (suc i) h = omega (arith, slot-lt block i h)

slot-replicate : (n j : ℕ) → slot (replicate n) j ≡ none
unfolding slot
slot-replicate zero j = refl
slot-replicate (suc n) zero = refl
slot-replicate (suc n) (suc j) = slot-replicate n j

length-replicate : (n : ℕ) → length (replicate n) ≡ n
length-replicate zero = refl
length-replicate (suc n) = ap suc (length-replicate n)

pub slot-empty_block : (j : ℕ) → slot empty_block j ≡ none
unfolding empty_block
slot-empty_block j = slot-replicate 256 j

pub length-empty_block : length empty_block ≡ 256
unfolding empty_block
length-empty_block = length-replicate 256

-- `Trie::node(&[(b, p)])` as a block
abbrev pub block_of : ℕ → Pointer → PointerBlock
block_of b p = set_slot empty_block b p

pub length-block_of : (b : ℕ) (p : Pointer) → length (block_of b p) ≡ 256
length-block_of b p = length-set_slot empty_block b p ∙ length-empty_block

pub slot-block_of_other : (a b : ℕ) (p : Pointer) → (a == b) ≡ false → slot (block_of b p) a ≡ none
slot-block_of_other a b p e = slot-set_slot_other empty_block b a p e ∙ slot-empty_block a

pub slot-block_of : (b : ℕ) (p : Pointer) → b < 256 → slot (block_of b p) b ≡ some p
slot-block_of b p lt = slot-set_slot empty_block b p (omega (arith, length-empty_block))
