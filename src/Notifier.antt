-- ===== src/Notifier.antt =====
-- rfid-tool/inc/common/Notifier.hpp: listeners in the order in which they were added. `same` compares
-- two pointers, and a listener's `onEvent` changes a state that all share.
use rfid_tool.Base.{◌≡◌, refl, Bool, true, false, if◌then◌else◌}
use rfid_tool.Base.{List, [], ◌∷◌, ◌++◌}

module _ {A : Type 0} where
  abbrev pub add_listener : List A → A → List A
  add_listener listeners listener = listeners ++ listener ∷ []

  -- `find` and `erase`: the first one only.
  unfoldable pub remove_listener : (same : A → A → Bool) → List A → A → List A
  remove_listener same [] listener = []
  remove_listener same (x ∷ xs) listener =
      let rest = remove_listener same xs listener in if same x listener then xs else x ∷ rest

  unfoldable pub notify : {S : Type 0} → (on_event : A → S → S) → List A → S → S
  notify on_event [] s = s
  notify on_event (x ∷ xs) s = notify on_event xs (on_event x s)

  abbrev pub IsAbsent : (same : A → A → Bool) → List A → A → Type 0
  IsAbsent same [] listener = Unit {0}
  IsAbsent same (x ∷ xs) listener = (same x listener ≡ false) × IsAbsent same xs listener

  -- A listener that is added and then removed leaves the others as they were, if it was not there.
  pub remove_listener-add_listener :
      (same : A → A → Bool) (xs : List A) (x : A)
      → same x x ≡ true
      → IsAbsent same xs x
      → remove_listener same (add_listener xs x) x ≡ xs
  unfolding remove_listener
  remove_listener-add_listener same [] x self absent = rw self refl
  remove_listener-add_listener same (y ∷ ys) x self absent =
      let rest = remove_listener-add_listener same ys x self absent.1 in rw (absent.0, rest) refl
