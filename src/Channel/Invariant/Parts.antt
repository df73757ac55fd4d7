-- ===== src/Channel/Invariant/Parts.antt =====
-- The invariant under a change of one part of the state.
use logos_messaging_js.Prelude.{
  ℕ, ◌<◌, ◌≡◌, inl, inr, true, Option, none, some, List, String, arith, ◌∙◌,
}
use logos_messaging_js.Prelude.Sorting.{All-imp}
use logos_messaging_js.Prelude.Effects.{Outcome, ok, throw, state_of, Eff}
use logos_messaging_js.Platform.{Platform}
use logos_messaging_js.Message.{Message}
use logos_messaging_js.History.{LocalHistory, Lodash}
use logos_messaging_js.Bloom
use logos_messaging_js.Bloom.{BloomFilter, default_bloom_filter_options}
use logos_messaging_js.Bloom.Membership.{lookup-insert_kept, lookup-insert_self}
use logos_messaging_js.Bloom.Shape.{insert-IsShaped}
use logos_messaging_js.Bloom.Serial.{IsBuiltFrom}
use logos_messaging_js.Repair.Manager.{RepairManager}
use logos_messaging_js.Repair.Manager.Validity.{IsValid as IsValidManager}
use logos_messaging_js.Channel.{Channel, on_manager, on_repair, insert_filter}
use logos_messaging_js.Channel.Invariant.{IsSound, IsValidRepair, InFilter, IsNoted, Holds, IsValid}

-- The default sizes give a filter of some bits.
has_bits : (f : BloomFilter) → IsBuiltFrom default_bloom_filter_options f → 0 < f.total_bits
unfolding Bloom.init
has_bits f built = let e = built.bits in omega (arith, e)

module _ ⦃platform : Platform⦄ where
  InFilter-insert :
      (f g : BloomFilter) (id : String)
      → Bloom.insert f id ≡ some g
      → (m : Message) → InFilter f m
      → InFilter g m
  InFilter-insert f g id e m k = lookup-insert_kept f g id m.message_id e k

  IsNoted-insert :
      (f g : BloomFilter) (id : String)
      → Bloom.insert f id ≡ some g
      → (m : Message) → IsNoted f m
      → IsNoted g m
  IsNoted-insert f g id e m (inl k) = inl k
  IsNoted-insert f g id e m (inr k) = inr (InFilter-insert f g id e m k)

module _ ⦃platform : Platform⦄ ⦃lodash : Lodash⦄ (sound : IsSound platform lodash) where
  built-insert :
      (f g : BloomFilter) (id : String)
      → Bloom.insert f id ≡ some g
      → IsBuiltFrom default_bloom_filter_options f
      → IsBuiltFrom default_bloom_filter_options g
  built-insert f g id e b =
      let (g', e', shaped, bits, hashes) =
        insert-IsShaped sound.bounded f id (has_bits f b) b.shaped in
      let same : g' ≡ g = ground (arith, e, e') in
      rw (← same) (record { bits = bits ∙ b.bits; hashes = hashes ∙ b.hashes; shaped = shaped })

  -- A filter that an insert made, in place of the old one.
  inserted-Holds :
      {h : LocalHistory} {t : ℕ} {out inc : List Message} {r : Option RepairManager}
      (f g : BloomFilter) (id : String)
      → Bloom.insert f id ≡ some g
      → Holds h t out f inc r
      → Holds h t out g inc r
  inserted-Holds {h} {t} {out} {inc} {r} f g id e v = record {
    ordered = v.ordered;
    clocked = v.clocked;
    outgoing_clocked = v.outgoing_clocked;
    built = built-insert f g id e v.built;
    filtered = All-imp _ (InFilter-insert f g id e) h.items v.filtered;
    noted = All-imp _ (IsNoted-insert f g id e) inc v.noted;
    repair_valid = v.repair_valid;
  }

  -- `this.filter.insert` returns, keeps the invariant, and the id is in the filter.
  pub insert_filter_lem :
      (id : String) (c : Channel)
      → IsValid c
      → (g : BloomFilter) × (insert_filter id c ≡ ok tt (record c { filter = g }))
        × IsValid (record c { filter = g })
        × (Bloom.lookup g id ≡ some true)
  unfolding insert_filter
  insert_filter_lem id c v =
      let (g, e, _, _, _) =
        insert-IsShaped sound.bounded c.filter id (has_bits c.filter v.built) v.built.shaped in
      (
        g,
        rw (e, insert_filter),
        inserted-Holds c.filter g id e v,
        lookup-insert_self c.filter g id e,
      )

module _ ⦃platform : Platform⦄ where
  -- Another repair manager.
  pub repair-Holds :
      {h : LocalHistory} {t : ℕ} {out inc : List Message} {f : BloomFilter}
      {r : Option RepairManager} (r' : Option RepairManager)
      → IsValidRepair r'
      → Holds h t out f inc r
      → Holds h t out f inc r'
  repair-Holds r' valid v = record {
    ordered = v.ordered;
    clocked = v.clocked;
    outgoing_clocked = v.outgoing_clocked;
    built = v.built;
    filtered = v.filtered;
    noted = v.noted;
    repair_valid = valid;
  }

  on_manager-IsValid :
      (f : Eff RepairManager (Unit {0})) (r : Option RepairManager) (c : Channel)
      → ((r : RepairManager) → IsValidManager r → IsValidManager (state_of (f r)))
      → IsValidRepair r
      → IsValid c
      → IsValid (state_of (on_manager f r c))
  on_manager-IsValid f none c keeps valid v = v
  on_manager-IsValid f (some r) c keeps valid v = go (f r) (keeps r valid)
    where
      go :
          (o : Outcome RepairManager (Unit {0}))
          → IsValidManager (state_of o)
          → IsValid (
              state_of {A = Unit {0}} (elim o [
                | ok a r' ↦ ok tt (record c { repair_manager = some r' })
                | throw e r' ↦ throw e (record c { repair_manager = some r' })
              ]))
      go (ok a r') w = repair-Holds (some r') w v
      go (throw e r') w = repair-Holds (some r') w v

  -- A call on the repair manager that keeps it valid keeps the invariant.
  pub on_repair-IsValid :
      (f : Eff RepairManager (Unit {0})) (c : Channel)
      → ((r : RepairManager) → IsValidManager r → IsValidManager (state_of (f r)))
      → IsValid c
      → IsValid (state_of (on_repair f c))
  on_repair-IsValid f c keeps v = on_manager-IsValid f c.repair_manager c keeps v.repair_valid v
