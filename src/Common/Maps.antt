-- ===== src/Common/Maps.antt =====
-- A hash map with numbers for keys, as an association list; and a family updated at one index.
use Prim.Native.Nat.{ℕ}
use mathlib.Core.Path.{◌≡◌, refl}
use mathlib.Core.Logic.{◌≢◌}
use mathlib.Core.List.{List, [], ◌∷◌}
use mathlib.Core.Option.{Option, none, some}
use native.Mathlib.Omega.{arith}
use vector_engine.Common.Tests.{◌==◌, if◌then◌else◌}

module _ {ℓ} {A : Type ℓ} where
  -- `unordered_map::find`.
  unfoldable pub find : ℕ → List (ℕ × A) → Option A
  find k [] = none
  find k ((j, a) ∷ m) = if j == k then some a else find k m

  -- `emplace`: an entry that is there stays.
  unfoldable pub emplace : ℕ → A → List (ℕ × A) → List (ℕ × A)
  emplace k a [] = (k, a) ∷ []
  emplace k a ((j, b) ∷ m) = if j == k then (j, b) ∷ m else (j, b) ∷ emplace k a m

  unfoldable pub erase : ℕ → List (ℕ × A) → List (ℕ × A)
  erase k [] = []
  erase k ((j, a) ∷ m) = if j == k then erase k m else (j, a) ∷ erase k m

  -- An object in the map is changed in place.
  unfoldable pub assign : ℕ → A → List (ℕ × A) → List (ℕ × A)
  assign k a [] = []
  assign k a ((j, b) ∷ m) = if j == k then (j, a) ∷ m else (j, b) ∷ assign k a m

  pub find-assign_ne :
      (k j : ℕ) (a : A) (m : List (ℕ × A)) → k ≢ j → find j (assign k a m) ≡ find j m
  unfolding find assign
  find-assign_ne k j a [] ne = refl
  find-assign_ne k j a ((i, b) ∷ m) ne = ground (arith, find-assign_ne k j a m ne)

  pub find-assign_self :
      (k : ℕ) (a b : A) (m : List (ℕ × A)) → find k m ≡ some b → find k (assign k a m) ≡ some a
  unfolding find assign
  find-assign_self k a b [] e = cc
  find-assign_self k a b ((i, c) ∷ m) e = ground (arith, find-assign_self k a b m)

  pub find-erase :
      (k j : ℕ) (m : List (ℕ × A)) → find j (erase k m) ≡ (if k == j then none else find j m)
  unfolding find erase
  find-erase k j [] = ground arith
  find-erase k j ((i, a) ∷ m) = ground (arith, find-erase k j m)

  pub find-emplace_ne :
      (k j : ℕ) (a : A) (m : List (ℕ × A)) → k ≢ j → find j (emplace k a m) ≡ find j m
  unfolding find emplace
  find-emplace_ne k j a [] ne = ground arith
  find-emplace_ne k j a ((i, b) ∷ m) ne = ground (arith, find-emplace_ne k j a m ne)

  pub find-emplace_self :
      (k : ℕ) (a : A) (m : List (ℕ × A)) → find k m ≡ none → find k (emplace k a m) ≡ some a
  unfolding find emplace
  find-emplace_self k a [] e = ground arith
  find-emplace_self k a ((i, b) ∷ m) e = ground (arith, find-emplace_self k a m)

  abbrev pub update : (ℕ → A) → ℕ → A → ℕ → A
  update f i a j = if i == j then a else f j
