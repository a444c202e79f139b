-- ===== src/Cache/Lru/Recency.antt =====
-- The clock of internal/cache/value_lru.go: until it wraps, the item used last is the last to go.
use lets_proxy.Base.{
  ℕ, ◌+◌, ◌≤◌, ◌<◌, ◌≢◌, ◌≡◌, sym, ◌∙◌, List, [], ◌∷◌, none, some, Str, arith, length, All, str_eq,
  str_eq_iff, str_eq_refl, Bool-cases, Option-cases, inl, inr, unless-eq-some,
}
use lets_proxy.Base.Dict.{lookup, lookup-insert, lookup-insert_self, lookup-All}
use lets_proxy.Cache.Lru.{Lru, Item, put, clean, time, u64_mod}
use lets_proxy.Cache.Lru.Eviction.{Cleaned, kept, cleared, evicted, clean_total, Cleaned-oldest}
use lets_proxy.Cache.Lru.Invariant.{Inv, put-Inv, time_frame}
use lets_proxy.Cache.Lru.Steps.{items-put, put-SameConfig}

module _ {ℓ} {V : Type ℓ} where
  abbrev UsedBy : ℕ → Str × Item V → Type 0
  UsedBy t e = e.1.last_used_time ≤ t

  -- No item was used later than the clock says.
  abbrev pub IsRecent : Lru V → Type 0
  IsRecent c = All (UsedBy c.last_time) c.items

  abbrev stored : Lru V → Str → V → Item V
  stored c k v = record { key = k; value = v; last_used_time = (time c).1 }

  survives_evicted :
      (p : Lru V) (m' : List (Str × Item V)) (k : Str) (a : Item V)
      → Inv p
      → Cleaned p m'
      → lookup k p.items ≡ some a
      → 0 < length m'
      → ((j : Str) (b : Item V)
          → lookup j p.items ≡ some b
          → a.last_used_time ≤ b.last_used_time
          → j ≡ k)
      → ((j : Str) (b : Item V) → lookup j m' ≡ some b → lookup j p.items ≡ some b)
      → lookup k m' ≢ none
  unfolding lookup
  survives_evicted p [] k a v cl f pos newest sub gone = absurd (omega arith)
  survives_evicted p ((j, b) ∷ m') k a v cl f pos newest sub gone =
      let here : lookup j ((j, b) ∷ m') ≡ some b = ground (arith, str_eq_refl j) in
      let le = Cleaned-oldest p ((j, b) ∷ m') k j a b v.distinct cl f gone here in
      ground (arith, newest j b (sub j b here) le, str_eq_refl j)

  newest_survives :
      (p : Lru V) (m' : List (Str × Item V)) (k : Str) (a : Item V)
      → Inv p
      → Cleaned p m'
      → lookup k p.items ≡ some a
      → p.clean_count < p.max_size
      → ((j : Str) (b : Item V)
          → lookup j p.items ≡ some b
          → a.last_used_time ≤ b.last_used_time
          → j ≡ k)
      → lookup k m' ≡ some a
  newest_survives p m' k a v (kept _ e) f part newest = rw e f
  newest_survives p m' k a v (cleared on over whole e) f part newest = absurd (omega arith)
  newest_survives p m' k a v (evicted on over part' len look) f part newest =
      elim (Option-cases (lookup k m')) [
        | inl gone ↦ absurd (
            survives_evicted p m' k a v (evicted on over part' len look) f (omega arith) newest
              (λ j b e. (unless-eq-some _ (sym (look j) ∙ e)).1) gone)
        | inr (b, found) ↦ found ∙ sym (unless-eq-some _ (sym (look k) ∙ found)).1 ∙ f
      ]

  stored_time :
      (c : Lru V) (k : Str) (v : V)
      → c.last_time + 1 < u64_mod
      → stored c k v ≡ record { key = k; value = v; last_used_time = c.last_time + 1 }
  stored_time c k v fits =
      let (_, _, _, _, now, _) = time_frame c in
      let t : (time c).1 ≡ c.last_time + 1 = omega arith in rw t

  stored_newest :
      (c : Lru V) (k : Str) (v : V)
      → IsRecent c
      → c.last_time + 1 < u64_mod
      → (j : Str) (b : Item V) → lookup j (put c k v).items ≡ some b
      → (stored c k v).last_used_time ≤ b.last_used_time
      → j ≡ k
  stored_newest c k v recent fits j b e le = elim (Bool-cases (str_eq k j)) [
    | inl same ↦ sym ((str_eq_iff k j).0 same)
    | inr other ↦
        let (_, _, _, _, now, _) = time_frame c in
        let old : lookup j c.items ≡ some b =
          ground (arith, items-put c k v, lookup-insert k j (stored c k v) c.items) in
        absurd (omega (arith, lookup-All (UsedBy c.last_time) j b c.items recent old))
  ]

  -- In a valid cache whose items were all used at or before its clock, the item that a `Put` stores
  -- outlives the cleaning that follows, unless the cleaning drops everything (`CleanCount` at least
  -- `MaxSize`) or the 64-bit clock wraps.
  pub clean-put_survives :
      (c : Lru V) (k : Str) (v : V)
      → Inv c
      → IsRecent c
      → c.last_time + 1 < u64_mod
      → c.clean_count < c.max_size
      → (d : Lru V) × (clean (put c k v) ≡ some d)
        × (lookup k d.items
            ≡ some (record { key = k; value = v; last_used_time = c.last_time + 1 }))
  clean-put_survives c k v inv recent fits part =
      let p = put c k v in
      let (same_max, same_count) = put-SameConfig c k v in
      let (m', run, _, _, cleaned) =
        clean_total p (put-Inv c k v inv).keyed (put-Inv c k v inv).distinct in
      (
        record p { items = m' },
        run,
        rw (sym (stored_time c k v fits)) (
            newest_survives p m' k (stored c k v) (put-Inv c k v inv) cleaned
              (rw items-put (lookup-insert_self k (stored c k v) c.items)) (omega arith)
              (stored_newest c k v recent fits)),
      )
