-- ===== src/Base/Slice.antt =====
-- Rust's slices as lists: an index or a range out of bounds panics.
use umqtt.Base.Tests.{leb, le→leb, ◌==◌, if◌then◌else◌}
use mathlib.Core.Path.{◌≡◌, refl}
use native.Mathlib.Omega.{arith}
use umqtt.Base.Lists.{length, length-append, take-append, drop-append, get_elem?, set, take, drop}
use umqtt.Base.Outcome.{Outcome, ok, panic}
use Prim.Native.Nat.{ℕ, ◌+◌, ◌-◌}
use mathlib.Core.Bool.{◌&&◌}
use mathlib.Core.Option.{Option, none, some}
use mathlib.Core.List.{List, ◌++◌}

module _ {E : Type 0} where
  abbrev or_panic : Option ℕ → Outcome E ℕ
  or_panic none = panic
  or_panic (some a) = ok a

  -- `&s[i]`
  abbrev pub index : List ℕ → ℕ → Outcome E ℕ
  index s i = or_panic (get_elem? s i)

  -- `&s[n..]`
  abbrev pub slice_from : ℕ → List ℕ → Outcome E (List ℕ)
  slice_from n s = if leb n (length s) then ok (drop n s) else panic

  -- `&s[..n]`
  abbrev pub slice_to : ℕ → List ℕ → Outcome E (List ℕ)
  slice_to n s = if leb n (length s) then ok (take n s) else panic

  -- `s[i..i + bs.len()].copy_from_slice(bs)`
  abbrev pub copy_from_slice : ℕ → List ℕ → List ℕ → Outcome E (List ℕ)
  copy_from_slice i bs s =
      if leb (i + length bs) (length s)
      then ok (take i s ++ (bs ++ drop (i + length bs) s))
      else panic

  -- `s[i] = b`
  abbrev pub set_index : ℕ → ℕ → List ℕ → Outcome E (List ℕ)
  set_index i b s = if leb (i + 1) (length s) then ok (set s i b) else panic

  pub slice_to-append : (xs ys : List ℕ) (n : ℕ) → n ≡ length xs → slice_to n (xs ++ ys) ≡ ok xs
  slice_to-append xs ys n e = rw e (ground (arith, length-append xs ys, take-append xs ys))

  -- `s[i..].copy_from_slice(bs)`
  abbrev pub copy_to_end : ℕ → List ℕ → List ℕ → Outcome E (List ℕ)
  copy_to_end i bs s =
      if leb i (length s) && length bs == length s - i then ok (take i s ++ bs) else panic

  -- `&s[i..j]`
  abbrev pub slice_range : ℕ → ℕ → List ℕ → Outcome E (List ℕ)
  slice_range i j s = if leb i j && leb j (length s) then ok (take (j - i) (drop i s)) else panic

  pub slice_range-middle :
      (pre mid post : List ℕ) (i j : ℕ)
      → i ≡ length pre
      → j ≡ length pre + length mid
      → slice_range i j (pre ++ (mid ++ post)) ≡ ok mid
  slice_range-middle pre mid post i j ei ej =
      let k : length pre + length mid - length pre ≡ length mid = omega arith in
      rw
        (
          ei,
          ej,
          le→leb (length pre) (length pre + length mid) (omega arith),
          le→leb (length pre + length mid) (length (pre ++ (mid ++ post)))
              (omega (arith, length-append pre (mid ++ post), length-append mid post)),
          k,
          drop-append pre (mid ++ post),
          take-append mid post,
        )
        refl
