-- ===== src/Model/Frame/History/Order.antt =====
-- The order of the stored frames, and what the search and the removal of FrameHistory.cpp do to it.
use edge_vision.Prelude.{
  ℕ, suc, ◌≤◌, ◌<◌, ◌≡◌, refl, Bool, true, List, [], ◌∷◌, ◌++◌, Option, none, some, All, length,
  arith,
}
use edge_vision.Model.Frame.{Frame}
use edge_vision.Model.Frame.History.{erase_first, find_id}

-- Ids rise strictly along the list and are above `n`.
abbrev pub Above : ℕ → List Frame → Type 0
Above n [] = Unit {0}
Above n (f ∷ fs) = (n < f.frame_id) × Above f.frame_id fs

-- An id is at most the latest one.
abbrev pub UpTo : Option ℕ → ℕ → Type 0
UpTo none id = ⊥
UpTo (some latest) id = id ≤ latest

pub Above-mono : {m n : ℕ} (fs : List Frame) → m ≤ n → Above n fs → Above m fs
Above-mono [] h b = tt
Above-mono (f ∷ fs) h b = (omega arith, b.1)

pub Above-append :
    (n : ℕ) (fs : List Frame) (f : Frame)
    → Above n fs
    → All (λ g. g.frame_id < f.frame_id) fs
    → n < f.frame_id
    → Above n (fs ++ f ∷ [])
Above-append n [] f a b h = (h, tt)
Above-append n (g ∷ fs) f a b h = (a.0, Above-append g.frame_id fs f a.1 b.1 b.0)

pub Above-erase_first : (n id : ℕ) (fs : List Frame) → Above n fs → Above n (erase_first id fs)
unfolding erase_first
Above-erase_first n id [] a = tt
Above-erase_first n id (f ∷ fs) a =
    ground (arith, Above-erase_first f.frame_id id fs a.1, Above-mono {m = n} {n = f.frame_id} fs)

pub All-erase_first {κ} :
    (P : Frame → Type κ) (id : ℕ) (fs : List Frame) → All P fs → All P (erase_first id fs)
unfolding erase_first
All-erase_first P id [] h = tt
All-erase_first P id (f ∷ fs) h = ground (arith, All-erase_first P id fs h.1)

pub length-erase_first :
    (p : ℕ → Bool) (id : ℕ) (fs : List Frame)
    → find_id p fs ≡ some id
    → suc (length (erase_first id fs)) ≡ length fs
unfolding erase_first find_id
length-erase_first p id [] h = ground arith
length-erase_first p id (f ∷ fs) h = ground (arith, length-erase_first p id fs)

pub find_id-append :
    (p : ℕ → Bool) (fs gs : List Frame) {id : ℕ}
    → find_id p fs ≡ some id
    → find_id p (fs ++ gs) ≡ some id
unfolding find_id
find_id-append p [] gs h = ground arith
find_id-append p (f ∷ fs) gs {id} h = ground (arith, find_id-append p fs gs {id = id})

pub find_id-agree :
    (p q : ℕ → Bool) (fs : List Frame)
    → All (λ f. p f.frame_id ≡ q f.frame_id) fs
    → find_id p fs ≡ find_id q fs
unfolding find_id
find_id-agree p q [] h = refl
find_id-agree p q (f ∷ fs) h = ground (arith, find_id-agree p q fs h.1)

pub find_id-true : (p : ℕ → Bool) (fs : List Frame) {id : ℕ} → find_id p fs ≡ some id → p id ≡ true
unfolding find_id
find_id-true p [] h = ground arith
find_id-true p (f ∷ fs) {id} h = ground (arith, find_id-true p fs {id = id})

pub find_id-All {κ} :
    (Q : ℕ → Type κ) (p : ℕ → Bool) (fs : List Frame) {id : ℕ}
    → All (λ f. Q f.frame_id) fs
    → find_id p fs ≡ some id
    → Q id
unfolding find_id
find_id-All Q p [] h e = ground arith
find_id-All Q p (f ∷ fs) {id} h e = ground (arith, find_id-All Q p fs {id = id} h.1)

pub Above-All : (m n : ℕ) (fs : List Frame) → m ≤ n → Above n fs → All (λ f. m < f.frame_id) fs
Above-All m n [] h a = tt
Above-All m n (f ∷ fs) h a = (omega arith, Above-All m f.frame_id fs (omega arith) a.1)
