-- ===== src/Cache/Listing.antt =====
-- server/cvtservice/cache.go: which consumers `ListConsumers` lists.
use cvt.Base.{
  String, Bool, true, false, ◌≡◌, refl, sym, subst, ◌↔◌, ◌⊎◌, inl, inr, Memᴰ, arith, Bool-cases,
  eq_iff, only_if, collect-mem, mem-collect,
}
use mathlib.Core.List.Memᴰ.{head, tail}
use text.Mathlib.Text.{◌==◌}
use cvt.Registry.{ConsumerEntry}
use cvt.Cache.{SchemaCache, is_consumer_of, list_consumers}

is_consumer_of_iff :
    (schema_id environment : String) (c : ConsumerEntry)
    → (is_consumer_of schema_id environment c ≡ true)
      ↔ ((c.schema_id ≡ schema_id) × ((environment ≡ "") ⊎ (c.environment ≡ environment)))
is_consumer_of_iff i env c = (
  λ e. (
    (eq_iff c.schema_id i).0 (ground arith),
    elim (Bool-cases (env == "")) [
      | inl bare ↦ inl ((eq_iff env "").0 bare)
      | inr named ↦ inr ((eq_iff c.environment env).0 (ground arith))
    ],
  ),
  λ (same, h). elim h [
    | inl bare ↦ ground (arith, (eq_iff c.schema_id i).1 same, (eq_iff env "").1 bare)
    | inr own ↦ ground (arith, (eq_iff c.schema_id i).1 same, (eq_iff c.environment env).1 own)
  ],
)

mem-only_if : (b : Bool) (c d : ConsumerEntry) → Memᴰ c (only_if b d) → (c ≡ d) × (b ≡ true)
mem-only_if true c d (head e) = (e, refl)
mem-only_if true c d (tail m) = elim m [ ]
mem-only_if false c d m = elim m [ ]

only_if-mem : (b : Bool) (c : ConsumerEntry) → b ≡ true → Memᴰ c (only_if b c)
only_if-mem b c e = rw e (head refl)

-- `ListConsumers` lists exactly the registered consumers of the schema whose environment is the one
-- that is asked for, or whatever it is where none is asked for.
pub list_consumers-mem :
    {C : Type 0} (schema_id environment : String) (s : SchemaCache C) (c : ConsumerEntry)
    → Memᴰ c (list_consumers schema_id environment s) ↔ (
        (key : String) × Memᴰ (key, c) s.consumers
        × (c.schema_id ≡ schema_id)
        × ((environment ≡ "") ⊎ (c.environment ≡ environment)))
unfolding list_consumers
list_consumers-mem schema_id environment s c = (
  λ m.
      let ((key, d), here, one) = mem-collect _ s.consumers m in
      let (same, is_one) = mem-only_if (is_consumer_of schema_id environment d) c d one in
      let (a, b) = (is_consumer_of_iff schema_id environment d).0 is_one in
      subst
        (λ x.
          (k : String) × Memᴰ (k, x) s.consumers
          × (x.schema_id ≡ schema_id)
          × ((environment ≡ "") ⊎ (x.environment ≡ environment)))
        (sym same) (key, here, a, b),
  λ (key, here, a, b). collect-mem _ here (
      only_if-mem (is_consumer_of schema_id environment c) c
        ((is_consumer_of_iff schema_id environment c).1 (a, b))),
)
