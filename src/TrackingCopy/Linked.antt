-- ===== src/TrackingCopy/Linked.antt =====
-- A map in the order of insertion, as a list of its entries, for the cache of
-- execution-engine/engine-core/src/tracking_copy/mod.rs.
use casper_labs.Base.{refl, Option, none, some, [], ◌∷◌, ◌++◌, length}
use casper_labs.Types.{Key}
use casper_labs.KeyMap.{KeyMap, find, without}
use casper_labs.TrackingCopy.{LinkedHashMap, IsLinkedHashMap, refreshed}

module _ {A : Type 0} where
  abbrev pop : KeyMap A → Option (record { key : Key; value : A; rest : KeyMap A })
  pop [] = none
  pop ((k, a) ∷ m) = some (record { key = k; value = a; rest = m })

  unfoldable pub linked : LinkedHashMap (KeyMap A) A
  unfolding find without
  linked = record {
    empty = [];
    len = length;
    insert = λ k a m. without k m ++ (k, a) ∷ [];
    pop_front = pop;
    get_refresh = λ k m. (refreshed k m (find k m), find k m);
  }

  pub linked-IsLinkedHashMap : IsLinkedHashMap linked (λ m. m)
  unfolding linked
  linked-IsLinkedHashMap = record {
    empties = refl;
    counts = λ m. refl;
    inserts = λ k a m. refl;
    pops_none = λ m e. rw e refl;
    pops_some = λ m k a rest e. (rest, rw e refl, refl);
    finds = λ k m. refl;
    refreshes = λ k m. refl;
  }
