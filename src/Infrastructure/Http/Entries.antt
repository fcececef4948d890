-- ===== src/Infrastructure/Http/Entries.antt =====
-- The entries of a map, written to a JSON object and read back (infrastructure/src/api/dto.rs).
use luminair_service_aws_dsq.Base.{
  String, false, ◌||◌, none, some, [], ◌∷◌, ◌++◌, ◌≡◌, ◌∙◌, refl, sym, ap, arith, string_eq,
}
use luminair_service_aws_dsq.Base.Map.{HashMap}
use luminair_service_aws_dsq.Base.Map
use luminair_service_aws_dsq.Infrastructure.Json.{
  Json, Members, no_members, member, insert_member, has_member,
}
use luminair_service_aws_dsq.Infrastructure.Http.Values.{Formats, insert_entries}

abbrev append_members : Members → Members → Members
append_members no_members ns = ns
append_members (member k v ms) ns = member k v (append_members ms ns)

append_members_nil : (ms : Members) → append_members ms no_members ≡ ms
append_members_nil no_members = refl
append_members_nil (member k v ms) = cc (append_members_nil ms)

append_members_assoc :
    (ls ms ns : Members)
    → append_members (append_members ls ms) ns ≡ append_members ls (append_members ms ns)
append_members_assoc no_members ms ns = refl
append_members_assoc (member k v ls) ms ns = cc (append_members_assoc ls ms ns)

has_member-append :
    (ms ns : Members) (k : String)
    → has_member (append_members ms ns) k ≡ (has_member ms k || has_member ns k)
has_member-append no_members ns k = refl
has_member-append (member j v ms) ns k = ground (arith, has_member-append ms ns k)

insert_member-fresh :
    (ms : Members) (k : String) (v : Json)
    → has_member ms k ≡ false
    → insert_member ms k v ≡ append_members ms (member k v no_members)
unfolding insert_member
insert_member-fresh no_members k v h = refl
insert_member-fresh (member j w ms) k v h = ground (arith, insert_member-fresh ms k v)

module _ {V : Type 0} where
  insert-fresh :
      (m : HashMap String V) (k : String) (v : V)
      → Map.get m k ≡ none
      → Map.insert m k v ≡ m ++ (k, v) ∷ []
  unfolding Map.get Map.insert
  insert-fresh [] k v h = refl
  insert-fresh ((j, w) ∷ m) k v h = ground (arith, insert-fresh m k v)

  append_assoc : (ls ms ns : HashMap String V) → (ls ++ ms) ++ ns ≡ ls ++ (ms ++ ns)
  append_assoc [] ms ns = refl
  append_assoc (x ∷ ls) ms ns = cc (append_assoc ls ms ns)

  -- The entries of a map as the members of an object.
  abbrev pub members_of : (V → Json) → HashMap String V → Members
  members_of write [] = no_members
  members_of write ((k, v) ∷ m) = member k (write v) (members_of write m)

  abbrev IsFresh : Members → HashMap String V → Type 0
  IsFresh ms m = (k : String) (v : V) → Map.get m k ≡ some v → has_member ms k ≡ false

  insert_entries-append :
      (formats : Formats) (write : V → Json) (m : HashMap String V) (ms : Members)
      → Map.HasDistinctKeys m
      → IsFresh ms m
      → insert_entries formats write ms m ≡ append_members ms (members_of write m)
  unfolding insert_entries Map.get
  insert_entries-append formats write [] ms _ _ = sym (append_members_nil ms)
  insert_entries-append formats write ((k, v) ∷ m) ms (alone, distinct) fresh =
      let here : has_member ms k ≡ false = fresh k v (ground arith) in
      let grown = append_members ms (member k (write v) no_members) in
      ap (λ ns. insert_entries formats write ns m) (insert_member-fresh ms k (write v) here)
      ∙ insert_entries-append formats write m grown distinct (λ j w found.
        ground (arith, fresh j w, has_member-append ms (member k (write v) no_members) j))
      ∙ append_members_assoc ms (member k (write v) no_members) (members_of write m)

  -- A map whose keys are distinct is written to an object with just its entries.
  pub insert_entries-members_of :
      (formats : Formats) (write : V → Json) (m : HashMap String V)
      → Map.HasDistinctKeys m
      → insert_entries formats write no_members m ≡ members_of write m
  insert_entries-members_of formats write m distinct =
      insert_entries-append formats write m no_members distinct (λ _ _ _. refl)

  -- The keys of one map are not in another.
  abbrev pub AreApart : HashMap String V → HashMap String V → Type 0
  AreApart done m = (k : String) (v : V) → Map.get m k ≡ some v → Map.get done k ≡ none

  -- One entry more is read.
  pub AreApart-cons :
      (done m : HashMap String V) (k : String) (v : V)
      → Map.get m k ≡ none
      → AreApart done ((k, v) ∷ m)
      → (Map.get done k ≡ none) × AreApart (Map.insert done k v) m
  unfolding Map.get
  AreApart-cons done m k v alone apart =
      (apart k v (ground arith), λ j w found. ground (arith, apart j w, Map.get-insert done k j v))

  pub insert-then :
      (done m : HashMap String V) (k : String) (v : V)
      → Map.get done k ≡ none
      → Map.insert done k v ++ m ≡ done ++ (k, v) ∷ m
  insert-then done m k v fresh =
      ap (λ l. l ++ m) (insert-fresh done k v fresh) ∙ append_assoc done ((k, v) ∷ []) m
