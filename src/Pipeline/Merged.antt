-- ===== src/Pipeline/Merged.antt =====
-- The windows of app/video/pipeline/remake/timeline.py, sorted and merged.
use nbdpsy_mcp.Prelude.{
  ℕ, suc, ◌≤◌, Bool, true, false, ◌&&◌, ◌||◌, [], ◌∷◌, ◌≡◌, refl, ap, ◌∙◌, arith, ltb, leb, length,
  Bool-cases, inl, inr,
}
use nbdpsy_mcp.Pipeline.Blocks.{larger}
use nbdpsy_mcp.Pipeline.Carve.{
  Window, Windows, is_before, insert_window, sorted, merge_from, merge_sorted, merge_intervals,
}

-- Is a moment in one of the windows?
abbrev pub covered : ℕ → Windows → Bool
covered x [] = false
covered x ((lo, hi) ∷ ws) = (leb lo x && ltb x hi) || covered x ws

-- The windows lie within a run.
abbrev pub Within : ℕ → ℕ → Windows → Type 0
Within t0 t1 [] = Unit
Within t0 t1 ((lo, hi) ∷ ws) = ((t0 ≤ lo) × (lo ≤ hi) × (hi ≤ t1)) × Within t0 t1 ws

-- In the order of their starts.
abbrev pub IsOrdered : ℕ → Windows → Type 0
IsOrdered t [] = Unit
IsOrdered t ((lo, hi) ∷ ws) = (t ≤ lo) × IsOrdered lo ws

-- One behind the other.
abbrev pub IsChain : ℕ → ℕ → Windows → Type 0
IsChain t0 t1 [] = t0 ≤ t1
IsChain t0 t1 ((lo, hi) ∷ ws) = (t0 ≤ lo) × (lo ≤ hi) × IsChain hi t1 ws

covered-insert_window :
    (x : ℕ) (w : Window) (ws : Windows) → covered x (insert_window w ws) ≡ covered x (w ∷ ws)
unfolding insert_window
covered-insert_window x w [] = refl
covered-insert_window x (a, b) ((c, d) ∷ ws) = ground (arith, covered-insert_window x (a, b) ws)

covered-sorted : (x : ℕ) (ws : Windows) → covered x (sorted ws) ≡ covered x ws
unfolding sorted
covered-sorted x [] = refl
covered-sorted x ((lo, hi) ∷ ws) =
    covered-insert_window x (lo, hi) (sorted ws)
    ∙ ap (λ b. (leb lo x && ltb x hi) || b) (covered-sorted x ws)

insert_window-Within :
    (t0 t1 lo hi : ℕ) (ws : Windows)
    → (t0 ≤ lo) × (lo ≤ hi) × (hi ≤ t1)
    → Within t0 t1 ws
    → Within t0 t1 (insert_window (lo, hi) ws)
unfolding insert_window
insert_window-Within t0 t1 lo hi [] h k = (h, tt)
insert_window-Within t0 t1 lo hi ((c, d) ∷ ws) h k = elim (Bool-cases (is_before (lo, hi) (c, d))) [
  | inl e ↦ rw e (h, k)
  | inr e ↦ rw e (k.0, insert_window-Within t0 t1 lo hi ws h k.1)
]

sorted-Within : (t0 t1 : ℕ) (ws : Windows) → Within t0 t1 ws → Within t0 t1 (sorted ws)
unfolding sorted
sorted-Within t0 t1 [] h = tt
sorted-Within t0 t1 ((lo, hi) ∷ ws) h =
    insert_window-Within t0 t1 lo hi (sorted ws) h.0 (sorted-Within t0 t1 ws h.1)

is_before-le : (lo hi c d : ℕ) → is_before (lo, hi) (c, d) ≡ true → lo ≤ c
is_before-le lo hi c d e = ground arith

is_before-ge : (lo hi c d : ℕ) → is_before (lo, hi) (c, d) ≡ false → c ≤ lo
is_before-ge lo hi c d e = ground arith

-- A window that meets the one before it makes it longer.
joined :
    (x a b lo hi : ℕ) (rest : Bool)
    → leb lo b ≡ true
    → a ≤ lo
    → ((leb a x && ltb x (larger b hi)) || rest)
      ≡ ((leb a x && ltb x b) || ((leb lo x && ltb x hi) || rest))
joined x a b lo hi rest e h = ground arith

insert_window-IsOrdered :
    (t lo hi : ℕ) (ws : Windows) → t ≤ lo → IsOrdered t ws → IsOrdered t (insert_window (lo, hi) ws)
unfolding insert_window
insert_window-IsOrdered t lo hi [] h k = (h, tt)
insert_window-IsOrdered t lo hi ((c, d) ∷ ws) h k = elim (Bool-cases (is_before (lo, hi) (c, d))) [
  | inl e ↦ rw e (h, (is_before-le lo hi c d e, k.1))
  | inr e ↦ rw e (k.0, insert_window-IsOrdered c lo hi ws (is_before-ge lo hi c d e) k.1)
]

sorted-IsOrdered : (t0 t1 : ℕ) (ws : Windows) → Within t0 t1 ws → IsOrdered t0 (sorted ws)
unfolding sorted
sorted-IsOrdered t0 t1 [] h = tt
sorted-IsOrdered t0 t1 ((lo, hi) ∷ ws) h =
    insert_window-IsOrdered t0 lo hi (sorted ws) h.0.0 (sorted-IsOrdered t0 t1 ws h.1)

IsOrdered-earlier : (s t : ℕ) (ws : Windows) → s ≤ t → IsOrdered t ws → IsOrdered s ws
IsOrdered-earlier s t [] h o = tt
IsOrdered-earlier s t ((lo, hi) ∷ ws) h o = (omega (arith, h, o.0), o.1)

-- Merged windows are one behind the other.
merge_from-IsChain :
    (t0 t1 a b : ℕ) (ws : Windows)
    → t0 ≤ a
    → a ≤ b
    → b ≤ t1
    → IsOrdered a ws
    → Within 0 t1 ws
    → IsChain t0 t1 (merge_from a b ws)
unfolding merge_from
merge_from-IsChain t0 t1 a b [] h k l o w = (h, k, l)
merge_from-IsChain t0 t1 a b ((lo, hi) ∷ ws) h k l o w = elim (Bool-cases (leb lo b)) [
  | inl e ↦ rw e (
      merge_from-IsChain t0 t1 a (larger b hi) ws h (ground (arith, k)) (ground (arith, l, w.0.2))
        (IsOrdered-earlier a lo ws o.0 o.1) w.1)
  | inr e ↦ rw e (h, k, merge_from-IsChain b t1 lo hi ws (ground (arith, e)) w.0.1 w.0.2 o.1 w.1)
]

covered-merge_from :
    (x a b : ℕ) (ws : Windows)
    → IsOrdered a ws
    → covered x (merge_from a b ws) ≡ covered x ((a, b) ∷ ws)
unfolding merge_from
covered-merge_from x a b [] o = refl
covered-merge_from x a b ((lo, hi) ∷ ws) o = elim (Bool-cases (leb lo b)) [
  | inl e ↦ rw e (
      covered-merge_from x a (larger b hi) ws (IsOrdered-earlier a lo ws o.0 o.1)
      ∙ joined x a b lo hi (covered x ws) e o.0)
  | inr e ↦ rw (e, covered-merge_from x lo hi ws o.1) refl
]

Within-earlier : (s t0 t1 : ℕ) (ws : Windows) → s ≤ t0 → Within t0 t1 ws → Within s t1 ws
Within-earlier s t0 t1 [] le h = tt
Within-earlier s t0 t1 ((lo, hi) ∷ ws) le h =
    ((omega (arith, le, h.0.0), h.0.1, h.0.2), Within-earlier s t0 t1 ws le h.1)

covered-merge_sorted :
    (x t : ℕ) (ws : Windows) → IsOrdered t ws → covered x (merge_sorted ws) ≡ covered x ws
covered-merge_sorted x t [] o = refl
covered-merge_sorted x t ((lo, hi) ∷ ws) o = covered-merge_from x lo hi ws o.1

merge_sorted-IsChain :
    (t0 t1 : ℕ) (ws : Windows)
    → t0 ≤ t1
    → Within t0 t1 ws
    → IsOrdered t0 ws
    → IsChain t0 t1 (merge_sorted ws)
merge_sorted-IsChain t0 t1 [] le h o = le
merge_sorted-IsChain t0 t1 ((lo, hi) ∷ ws) le h o =
    merge_from-IsChain t0 t1 lo hi ws h.0.0 h.0.1 h.0.2 o.1
      (Within-earlier 0 t0 t1 ws (omega arith) h.1)

-- Merging keeps the moments, and brings the windows in order.
pub covered-merge_intervals :
    (x t0 t1 : ℕ) (ws : Windows) → Within t0 t1 ws → covered x (merge_intervals ws) ≡ covered x ws
covered-merge_intervals x t0 t1 ws h =
    covered-merge_sorted x t0 (sorted ws) (sorted-IsOrdered t0 t1 ws h) ∙ covered-sorted x ws

pub merge_intervals-IsChain :
    (t0 t1 : ℕ) (ws : Windows) → t0 ≤ t1 → Within t0 t1 ws → IsChain t0 t1 (merge_intervals ws)
merge_intervals-IsChain t0 t1 ws le h =
    merge_sorted-IsChain t0 t1 (sorted ws) le (sorted-Within t0 t1 ws h)
      (sorted-IsOrdered t0 t1 ws h)

pub IsChain-Within : (t0 t1 : ℕ) (ws : Windows) → IsChain t0 t1 ws → (t0 ≤ t1) × Within t0 t1 ws
IsChain-Within t0 t1 [] h = (h, tt)
IsChain-Within t0 t1 ((lo, hi) ∷ ws) (from, long, chain) =
    let (le, within) = IsChain-Within hi t1 ws chain in
    (
      omega (arith, from, long, le),
      ((from, long, le), Within-earlier t0 hi t1 ws (omega (arith, from, long)) within),
    )

length-insert_window : (w : Window) (ws : Windows) → length (insert_window w ws) ≡ suc (length ws)
unfolding insert_window
length-insert_window w [] = refl
length-insert_window w (v ∷ ws) = ground (arith, length-insert_window w ws)

length-sorted : (ws : Windows) → length (sorted ws) ≡ length ws
unfolding sorted
length-sorted [] = refl
length-sorted (w ∷ ws) = length-insert_window w (sorted ws) ∙ ap suc (length-sorted ws)

length-merge_from : (a b : ℕ) (ws : Windows) → length (merge_from a b ws) ≤ suc (length ws)
unfolding merge_from
length-merge_from a b [] = omega arith
length-merge_from a b ((lo, hi) ∷ ws) =
    ground (arith, length-merge_from a (larger b hi) ws, length-merge_from lo hi ws)

length-merge_sorted : (ws : Windows) → length (merge_sorted ws) ≤ length ws
length-merge_sorted [] = omega arith
length-merge_sorted ((lo, hi) ∷ ws) = length-merge_from lo hi ws

-- Merging makes no more windows.
pub length-merge_intervals : (ws : Windows) → length (merge_intervals ws) ≤ length ws
length-merge_intervals ws = omega (arith, length-merge_sorted (sorted ws), length-sorted ws)
