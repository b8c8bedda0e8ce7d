-- ===== src/Storage/Memory/View.antt =====
-- The memory store against a function from keys to values.
use pingling.Prelude.{
  String, ◌≡◌, refl, sym, ap, ◌∙◌, List, [], ◌∷◌, In, ◌↔◌, length, Option, none, some, Bool, true,
  false, Result, ok, str_eq, if◌then◌else◌,
}
use pingling.Prelude.BTreeMap as BTreeMap
use pingling.Prelude.BTreeMap.{
  BTreeMap, get-insert, get-remove, insert-IsMap, remove-IsMap, Rising, keys-Rising, length-keys,
  In-keys,
}
use pingling.Domain.Error.{VpnError}
use pingling.Storage.Memory.{
  MemorySettingsStorage, new_storage, get_string, set_string, remove, has, clear, keys, len,
}

-- What a client asks of a store, and what it is told.
pub data Command : Type 0 where
  do_get do_has do_remove : String → Command
  do_set : String → String → Command
  do_clear : Command

pub data Answer : Type 0 where
  value : Result (Option String) VpnError → Answer
  present : Result Bool VpnError → Answer
  done : Result (Unit {0}) VpnError → Answer

abbrev pub obey : MemorySettingsStorage → Command → Answer × MemorySettingsStorage
obey s (do_get k) = (value (get_string s k), s)
obey s (do_has k) = (present (has s k), s)
obey s (do_remove k) = let (r, t) = remove s k in (done r, t)
obey s (do_set k v) = let (r, t) = set_string s k v in (done r, t)
obey s do_clear = let (r, t) = clear s in (done r, t)

abbrev pub session : MemorySettingsStorage → List Command → List Answer
session s [] = []
session s (c ∷ cs) = let (a, t) = obey s c in a ∷ session t cs

-- The same on functions.
abbrev pub View : Type 0
View = String → Option String

abbrev pub is_some : {A : Type 0} → Option A → Bool
is_some none = false
is_some (some a) = true

abbrev pub ideal : View → Command → Answer × View
ideal f (do_get k) = (value (ok (f k)), f)
ideal f (do_has k) = (present (ok (is_some (f k))), f)
ideal f (do_remove k) = (done (ok tt), λ j. if str_eq k j then none else f j)
ideal f (do_set k v) = (done (ok tt), λ j. if str_eq k j then some v else f j)
ideal f do_clear = (done (ok tt), λ j. none)

abbrev pub ideal_session : View → List Command → List Answer
ideal_session f [] = []
ideal_session f (c ∷ cs) = let (a, g) = ideal f c in a ∷ ideal_session g cs

-- The store answers as the function does.
abbrev Same : MemorySettingsStorage → View → Type 0
Same s f = (k : String) → BTreeMap.get s.entries k ≡ f k

present_lem :
    (o : Option String)
    → present (ok (elim o [ none ↦ false | some v ↦ true ])) ≡ present (ok (is_some o))
present_lem none = refl
present_lem (some v) = refl

session-Same :
    (cs : List Command) (s : MemorySettingsStorage) (f : View)
    → Same s f
    → session s cs ≡ ideal_session f cs
unfolding get_string has remove set_string clear BTreeMap.get
session-Same [] s f h = refl
session-Same (do_get k ∷ cs) s f h =
    rw (h k) (ap (λ l. value (ok (f k)) ∷ l) (session-Same cs s f h))
session-Same (do_has k ∷ cs) s f h =
    ap (λ a. a ∷ session s cs)
      (present_lem (BTreeMap.get s.entries k) ∙ ap (λ o. present (ok (is_some o))) (h k))
    ∙ ap (λ l. present (ok (is_some (f k))) ∷ l) (session-Same cs s f h)
session-Same (do_remove k ∷ cs) s f h =
    ap (λ l. done (ok tt) ∷ l)
      (session-Same cs (record { entries = BTreeMap.remove k s.entries }) _
        λ j. get-remove k j s.entries ∙ rw (h j) refl)
session-Same (do_set k v ∷ cs) s f h =
    ap (λ l. done (ok tt) ∷ l)
      (session-Same cs (record { entries = BTreeMap.insert k v s.entries }) _
        λ j. get-insert k j v s.entries ∙ rw (h j) refl)
session-Same (do_clear ∷ cs) s f h =
    ap (λ l. done (ok tt) ∷ l) (session-Same cs (record { entries = [] }) _ λ j. refl)

-- Whatever is asked of a new store, it answers as a function from keys to values that is updated
-- at one key by `set_string` and `remove`, and everywhere by `clear`.
pub session_new : (cs : List Command) → session new_storage cs ≡ ideal_session (λ k. none) cs
unfolding new_storage BTreeMap.get
session_new cs = session-Same cs (record { entries = [] }) (λ k. none) λ k. refl

abbrev pub after_all : MemorySettingsStorage → List Command → MemorySettingsStorage
after_all s [] = s
after_all s (c ∷ cs) = after_all (obey s c).1 cs

after_all-IsMap :
    (cs : List Command) (s : MemorySettingsStorage)
    → BTreeMap.IsMap s.entries
    → BTreeMap.IsMap (after_all s cs).entries
unfolding remove set_string clear
after_all-IsMap [] s h = h
after_all-IsMap (do_get k ∷ cs) s h = after_all-IsMap cs s h
after_all-IsMap (do_has k ∷ cs) s h = after_all-IsMap cs s h
after_all-IsMap (do_remove k ∷ cs) s h =
    after_all-IsMap cs (remove s k).1 (remove-IsMap k s.entries h)
after_all-IsMap (do_set k v ∷ cs) s h =
    after_all-IsMap cs (set_string s k v).1 (insert-IsMap k v s.entries h)
after_all-IsMap (do_clear ∷ cs) s h = after_all-IsMap cs (clear s).1 tt

-- What `keys` and `len` answer: the keys in rising order, each once, and their number.
pub record Lists (s : MemorySettingsStorage) (ks : List String) : Type 0 where
  pub told : keys s ≡ ok ks
  pub counted : len s ≡ ok (length ks)
  pub sorted : Rising ks
  pub exact : (k : String) → In k ks ↔ (has s k ≡ ok true)

ok_eq : (b c : Bool) (r : Result Bool VpnError) → r ≡ ok b → r ≡ ok c → b ≡ c
ok_eq b c r d e = cc

-- Whatever was asked of a new store, `keys` lists the keys that `has` finds, each once and in
-- rising order, and `len` is their number.
pub after_all_new-Lists :
    (cs : List Command)
    → Lists (after_all new_storage cs) (BTreeMap.keys (after_all new_storage cs).entries)
unfolding keys len has new_storage
after_all_new-Lists cs =
    let s = after_all new_storage cs in
    record {
      told = refl;
      counted = sym (ap ok (length-keys s.entries));
      sorted = keys-Rising s.entries (after_all-IsMap cs new_storage tt);
      exact = λ k. (
        λ i. ap ok ((In-keys k s.entries).0 i),
        λ e. (In-keys k s.entries).1 (ok_eq _ _ (has s k) refl e),
      );
    }
