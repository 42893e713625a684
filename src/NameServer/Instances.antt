-- ===== src/NameServer/Instances.antt =====
-- The instance id that `CNameServer::onAllocServiceAddressReq` chooses for a group
-- (server/CNameServer.cpp). `low` and `high` are FDB_AUTO_INSTANCE_BEGIN and FDB_AUTO_INSTANCE_END, the
-- state is `mInstanceIdAllocator`, and `used` is what `findService` returns for an id. Without fuel the
-- loop has no result.
use fdbus.Prelude.{
  ℕ, zero, suc, ◌+◌, ◌-◌, ◌*◌, ◌%◌, ◌^◌, ◌≤◌, ◌<◌, ◌≡◌, inl, inr, refl, ◌∙◌, ap, arith, ltb,
  if◌then◌else◌, Bool, true, false, Option, none, some, Bool-cases,
}
use fdbus.NameServer.{merge_event_code}

module _ (low high : ℕ) (used : ℕ → Bool) (group : ℕ) where
  unfoldable pub choose_instance : ℕ → Bool → ℕ → Option (Option ℕ × ℕ)
  choose_instance zero wrap allocator = none
  choose_instance (suc fuel) wrap allocator =
      let next = (allocator + 1) % 2 ^ 32 in
      let wrapped = choose_instance fuel true low in
      let more = choose_instance fuel wrap next in
      if ltb high allocator
      then (if wrap then some (none, low) else wrapped)
      else if used (merge_event_code group allocator)
      then more
      else some (some (merge_event_code group allocator), next)

  -- What the loop returns: an id that is free, or none since all ids from `from` to the last are used.
  abbrev pub Chosen : ℕ → Option (Option ℕ × ℕ) → Type 0
  Chosen from none = ⊥
  Chosen from (some (none, next)) =
      (k : ℕ) → from ≤ k → k ≤ high → used (merge_event_code group k) ≡ true
  Chosen from (some (some id, next)) =
      (used id ≡ false) × ((k : ℕ) × ((low ≤ k) × ((k ≤ high) × (id ≡ merge_event_code group k))))

  module _ (ordered : low ≤ high) (fits : high < 4294967295) where
    Chosen-cons :
        (n : ℕ) (r : Option (Option ℕ × ℕ))
        → used (merge_event_code group n) ≡ true
        → Chosen (n + 1) r
        → Chosen n r
    Chosen-cons n none u h = h
    Chosen-cons n (some (none, next)) u h = λ k a b. elim (Bool-cases (ltb n k)) [
      | inl e ↦ h k (ground (arith, e)) b
      | inr e ↦ ap (λ i. used (merge_event_code group i)) (ground (arith, e, a)) ∙ u
    ]
    Chosen-cons n (some (some id, next)) u h = h

    -- After the wrap.
    choose_wrapped :
        (fuel allocator : ℕ)
        → low ≤ allocator
        → allocator ≤ high + 1
        → (high + 2) - allocator ≤ fuel
        → Chosen allocator (choose_instance fuel true allocator)
    unfolding choose_instance
    choose_wrapped zero a l h f = absurd (omega arith)
    choose_wrapped (suc fuel) a l h f = elim (Bool-cases (ltb high a)) [
      | inl e ↦ rw e (λ k p q. absurd (ground (arith, e)))
      | inr e ↦ elim (Bool-cases (used (merge_event_code group a))) [
        | inl u ↦
            let step : (a + 1) % 2 ^ 32 ≡ a + 1 = ground (arith, e) in
            rw (e, u, step)
              (Chosen-cons a (choose_instance fuel true (a + 1)) u
                (choose_wrapped fuel (a + 1) (omega arith) (ground (arith, e)) (omega arith)))
        | inr u ↦ rw (e, u) (u, (a, (l, (ground (arith, e), refl))))
      ]
    ]

    choose_first :
        (fuel allocator : ℕ)
        → low ≤ allocator
        → allocator ≤ high + 1
        → ((high + 2) - allocator) + ((high + 2) - low) ≤ fuel
        → Chosen low (choose_instance fuel false allocator)
    unfolding choose_instance
    choose_first zero a l h f = absurd (omega arith)
    choose_first (suc fuel) a l h f = elim (Bool-cases (ltb high a)) [
      | inl e ↦ rw e (choose_wrapped fuel low (omega arith) (omega arith) (ground (arith, e)))
      | inr e ↦ elim (Bool-cases (used (merge_event_code group a))) [
        | inl u ↦
            let step : (a + 1) % 2 ^ 32 ≡ a + 1 = ground (arith, e) in
            rw (e, u, step)
              (choose_first fuel (a + 1) (omega arith) (ground (arith, e)) (ground (arith, e)))
        | inr u ↦ rw (e, u) (u, (a, (l, (ground (arith, e), refl))))
      ]
    ]

    pub choose_instance_lem :
        (fuel allocator : ℕ)
        → low ≤ allocator
        → allocator ≤ high + 1
        → ((high - low) + 2) * 2 ≤ fuel
        → Chosen low (choose_instance fuel false allocator)
    choose_instance_lem fuel allocator l h f = choose_first fuel allocator l h (omega arith)

  -- The allocator stays where the next call finds it in order.
  pub choose_instance-allocator :
      (fuel : ℕ) (wrap : Bool) (allocator : ℕ)
      → low ≤ high
      → high < 4294967295
      → low ≤ allocator
      → allocator ≤ high + 1
      → (r : Option ℕ) (next : ℕ) → choose_instance fuel wrap allocator ≡ some (r, next)
      → (low ≤ next) × (next ≤ high + 1)
  unfolding choose_instance
  choose_instance-allocator zero wrap a o t l h r next e = absurd (ground (arith, e))
  choose_instance-allocator (suc fuel) wrap a o t l h r next e = elim (Bool-cases (ltb high a)) [
    | inl over ↦
        let ih = choose_instance-allocator fuel true low o t (omega arith) (omega arith) r next in
        ground (arith, e, over, ih)
    | inr fits ↦
        let ih =
          choose_instance-allocator fuel wrap ((a + 1) % 2 ^ 32) o t (ground (arith, fits))
            (ground (arith, fits)) r next in
        ground (arith, e, fits, ih)
  ]
