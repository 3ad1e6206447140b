-- ===== src/Collector/Started.antt =====
-- engine/src/hopeit/server/collector.py: the collector when `run` has locked all items.
use hopeit_engine.Common.{
  ℕ, true, false, none, some, String, [], ◌∷◌, ◌≡◌, inl, inr, arith, refl, sym, subst, Option-cases,
}
use hopeit_engine.Common.Dict.{Dict, Items}
use hopeit_engine.Collector.{created, CollectorItem, AsyncCollector, lock_all, start}
use hopeit_engine.Collector.Moves.{ItemIsSound, IsSound, IsAcyclic}

module _ {V E : Type 0} where
  abbrev pub locked_item : CollectorItem V E → CollectorItem V E
  locked_item item = record item { locked = true; task = created }

  pub lock_all-cons :
      (name : String) (item : CollectorItem V E) (items : Dict (CollectorItem V E))
      {l : Dict (CollectorItem V E)}
      → lock_all ((name, item) ∷ items) ≡ some l
      → (m : Dict (CollectorItem V E)) × (lock_all items ≡ some m)
        × (l ≡ (name, locked_item item) ∷ m)
        × (item.locked ≡ false)
  unfolding lock_all
  lock_all-cons name item items {l} e = elim (Option-cases (lock_all items)) [
    | inl n ↦ ground arith
    | inr (m, q) ↦ (m, q, ground arith, ground arith)
  ]

  pub start-some :
      (c : AsyncCollector V E) {d : AsyncCollector V E}
      → start c ≡ some d
      → (l : Dict (CollectorItem V E)) × (lock_all c.items ≡ some l)
        × (d ≡ record { items = l; executed = true; payload = c.payload; error = none })
  unfolding start
  start-some c {d} e = elim (Option-cases (lock_all c.items)) [
    | inl n ↦ ground arith
    | inr (l, q) ↦ (l, q, ground arith)
  ]

module _ {V E : Type 0} (rank : String → ℕ) where
  lock_all-Items :
      (items : Dict (CollectorItem V E)) {l : Dict (CollectorItem V E)}
      → IsAcyclic rank items
      → lock_all items ≡ some l
      → Items (ItemIsSound rank) l
  unfolding lock_all
  lock_all-Items [] h e = subst (Items (ItemIsSound rank)) {x = []} (cc) tt
  lock_all-Items ((name, item) ∷ items) h e =
      let (m, q, f, u) = lock_all-cons name item items e in
      subst (Items (ItemIsSound rank)) (sym f) ((refl, h.0), lock_all-Items items h.1 q)

  pub start-IsSound :
      (c : AsyncCollector V E) {d : AsyncCollector V E}
      → IsAcyclic rank c.items
      → start c ≡ some d
      → IsSound rank d
  start-IsSound c {d} h e =
      let (l, q, f) = start-some c e in
      subst (IsSound rank) (sym f) (refl, lock_all-Items c.items h q)
