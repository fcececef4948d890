-- ===== src/Domain/Instance/Relations.antt =====
-- What the relation methods of a document instance leave, attribute by attribute.
use luminair_service_aws_dsq.Base.{
  ◌≡◌, ◌≢◌, refl, ap, Bool, true, false, not, ◌&&◌, ◌||◌, none, some, List, [], ◌∷◌, ◌++◌, nat_eq,
  string_eq, contains, contains-append, retain, IsNodup, All, All-append, if◌then◌else◌, Bool-cases,
  Option-cases, inl, inr, arith,
}
use luminair_service_aws_dsq.Base.Map
use luminair_service_aws_dsq.Base.Map.{HashMap}
use luminair_service_aws_dsq.Domain.Ids.{DocumentInstanceId, AttributeId}
use luminair_service_aws_dsq.Domain.Instance.{
  DocumentInstance, ResolvedRelation, targets, related, push_unseen, set_relations,
  connect_relations, disconnect_relations, unset_relations,
}
use mathlib.Core.List.{append_assoc}

-- The identifiers of `ts` that are not in `seen`, each at its first occurrence.
unseen : List DocumentInstanceId → List DocumentInstanceId → List DocumentInstanceId
unseen seen [] = []
unseen seen (t ∷ ts) =
    let skipped = unseen seen ts in
    let pushed = unseen (t ∷ seen) ts in if contains seen t then skipped else t ∷ pushed

targets-append : (xs ys : List ResolvedRelation) → targets (xs ++ ys) ≡ targets xs ++ targets ys
targets-append [] ys = refl
targets-append (x ∷ xs) ys = ap (λ l. x.target_instance_id ∷ l) (targets-append xs ys)

targets-push_unseen :
    (attr : AttributeId) (seen : List DocumentInstanceId) (list : List ResolvedRelation)
    (ts : List DocumentInstanceId)
    → targets (push_unseen attr seen list ts) ≡ targets list ++ unseen seen ts
unfolding push_unseen unseen
targets-push_unseen attr seen list [] = simp mathlib.Core.List.append-nil
targets-push_unseen attr seen list (t ∷ ts) = elim (Bool-cases (contains seen t)) [
  | inl old ↦ rw old (targets-push_unseen attr seen list ts)
  | inr new ↦ rw new (
      simp (
        targets-push_unseen attr (t ∷ seen)
            (list ++ record { attribute_id = attr; target_instance_id = t } ∷ []) ts,
        targets-append,
        append_assoc,
      ))
]

contains-unseen :
    (seen ts : List DocumentInstanceId) (a : DocumentInstanceId)
    → contains (unseen seen ts) a ≡ (contains ts a && not (contains seen a))
unfolding unseen
contains-unseen seen [] a = refl
contains-unseen seen (t ∷ ts) a =
    ground (arith, contains-unseen seen ts a, contains-unseen (t ∷ seen) ts a)

unseen-IsNodup : (seen ts : List DocumentInstanceId) → IsNodup (unseen seen ts)
unfolding unseen
unseen-IsNodup seen [] = tt
unseen-IsNodup seen (t ∷ ts) =
    ground
      (arith, unseen-IsNodup seen ts, unseen-IsNodup (t ∷ seen) ts, contains-unseen (t ∷ seen) ts t)

IsNodup-append_unseen :
    (xs seen ts : List DocumentInstanceId)
    → IsNodup xs
    → ((a : DocumentInstanceId) → contains xs a ≡ true → contains seen a ≡ true)
    → IsNodup (xs ++ unseen seen ts)
IsNodup-append_unseen [] seen ts u h = unseen-IsNodup seen ts
IsNodup-append_unseen (x ∷ xs) seen ts (fresh, u) h = ground (
  arith,
  h x,
  contains-append xs (unseen seen ts) x,
  contains-unseen seen ts x,
  IsNodup-append_unseen xs seen ts u (λ a m. h a (ground arith)),
)

push_unseen-attribute :
    (attr : AttributeId) (seen : List DocumentInstanceId) (list : List ResolvedRelation)
    (ts : List DocumentInstanceId)
    → All (λ r. r.attribute_id ≡ attr) list
    → All (λ r. r.attribute_id ≡ attr) (push_unseen attr seen list ts)
unfolding push_unseen
push_unseen-attribute attr seen list [] h = h
push_unseen-attribute attr seen list (t ∷ ts) h = ground (
  arith,
  push_unseen-attribute attr seen list ts h,
  push_unseen-attribute attr (t ∷ seen)
      (list ++ record { attribute_id = attr; target_instance_id = t } ∷ []) ts
      (All-append (λ r. r.attribute_id ≡ attr) list _ h (refl, tt)),
)

-- After the call the attribute holds just the targets `wanted`, each once and labelled with the
-- attribute; all else of the instance is as before.
pub record Stores (attr : AttributeId) (wanted : DocumentInstanceId → Bool)
    (before after : DocumentInstance) : Type 0 where
  pub distinct : IsNodup (targets (related after attr))
  pub members : (a : DocumentInstanceId) → contains (targets (related after attr)) a ≡ wanted a
  pub labelled : All (λ r. r.attribute_id ≡ attr) (related after attr)
  pub others : (b : AttributeId) → b ≢ attr → Map.get after.relations b ≡ Map.get before.relations b
  pub rest : record after { relations = before.relations } ≡ before

abbrev pub IsTidyList : AttributeId → List ResolvedRelation → Type 0
IsTidyList attr list = IsNodup (targets list) × All (λ r. r.attribute_id ≡ attr) list

-- No attribute lists a target twice, and every entry bears its attribute.
abbrev pub IsTidy : DocumentInstance → Type 0
IsTidy inst = (attr : AttributeId) → IsTidyList attr (related inst attr)

get-insert_ne :
    (m : HashMap AttributeId (List ResolvedRelation)) (k j : AttributeId)
    (v : List ResolvedRelation)
    → j ≢ k
    → Map.get (Map.insert m k v) j ≡ Map.get m j
get-insert_ne m k j v h = ground (arith, Map.get-insert m k j v)

related_of_get :
    (inst : DocumentInstance) (attr : AttributeId) (list : List ResolvedRelation)
    → Map.get inst.relations attr ≡ some list
    → related inst attr ≡ list
unfolding related
related_of_get inst attr list h = rw (h, related)

related-set_relations :
    (attr : AttributeId) (ids : List DocumentInstanceId) (inst : DocumentInstance)
    → related (set_relations attr ids inst) attr ≡ push_unseen attr [] [] ids
unfolding set_relations
related-set_relations attr ids inst =
    related_of_get (set_relations attr ids inst) attr _ (Map.get-insert_self inst.relations attr _)

related-connect_relations :
    (attr : AttributeId) (ids : List DocumentInstanceId) (inst : DocumentInstance)
    → related (connect_relations attr ids inst) attr
      ≡ push_unseen attr (targets (related inst attr)) (related inst attr) ids
unfolding connect_relations
related-connect_relations attr ids inst =
    related_of_get (connect_relations attr ids inst) attr _
      (Map.get-insert_self inst.relations attr _)

-- `set_relations` replaces the attribute's targets by the given ones, each kept once, and leaves all
-- else of the instance as it was.
pub set_relations-Stores :
    (attr : AttributeId) (ids : List DocumentInstanceId) (inst : DocumentInstance)
    → Stores attr (contains ids) inst (set_relations attr ids inst)
set_relations-Stores attr ids inst =
    let found = related-set_relations attr ids inst in
    let same = targets-push_unseen attr [] [] ids in
    record {
      distinct = rw (found, same) (unseen-IsNodup [] ids);
      members = λ a. rw (found, same) (ground (arith, contains-unseen [] ids a));
      labelled = rw found (push_unseen-attribute attr [] [] ids tt);
      others = λ b ne. unfold set_relations in get-insert_ne inst.relations attr b _ ne;
      rest = unfold set_relations in refl;
    }

-- `connect_relations` adds the given targets to those that the attribute has, each kept once, and
-- leaves all else of a tidy instance as it was.
pub connect_relations-Stores :
    (attr : AttributeId) (ids : List DocumentInstanceId) (inst : DocumentInstance)
    → IsTidy inst
    → Stores attr
        (λ a. contains (targets (related inst attr)) a || contains ids a)
        inst
        (connect_relations attr ids inst)
connect_relations-Stores attr ids inst tidy =
    let old = related inst attr in
    let found = related-connect_relations attr ids inst in
    let same = targets-push_unseen attr (targets old) old ids in
    record {
      distinct =
          rw (found, same)
            (IsNodup-append_unseen (targets old) (targets old) ids (tidy attr).0 (λ a h. h));
      members = λ a.
          rw (found, same)
            (ground (
              arith,
              contains-append (targets old) (unseen (targets old) ids) a,
              contains-unseen (targets old) ids a,
            ));
      labelled = rw found (push_unseen-attribute attr (targets old) old ids (tidy attr).1);
      others = λ b ne. unfold connect_relations in get-insert_ne inst.relations attr b _ ne;
      rest = unfold connect_relations in refl;
    }

abbrev keeps : List DocumentInstanceId → ResolvedRelation → Bool
keeps ids r = not (contains ids r.target_instance_id)

contains-retain :
    (ids : List DocumentInstanceId) (list : List ResolvedRelation) (a : DocumentInstanceId)
    → contains (targets (retain (keeps ids) list)) a
      ≡ (contains (targets list) a && not (contains ids a))
unfolding retain
contains-retain ids [] a = refl
contains-retain ids (r ∷ rs) a = ground (arith, contains-retain ids rs a)

retain-IsTidyList :
    (attr : AttributeId) (ids : List DocumentInstanceId) (list : List ResolvedRelation)
    → IsTidyList attr list
    → IsTidyList attr (retain (keeps ids) list)
unfolding retain
retain-IsTidyList attr ids [] h = (tt, tt)
retain-IsTidyList attr ids (r ∷ rs) h =
    ground (arith, retain-IsTidyList attr ids rs, contains-retain ids rs r.target_instance_id)

-- `disconnect_relations` takes the given targets from those that the attribute has, and leaves all
-- else of a tidy instance as it was.
pub disconnect_relations-Stores :
    (attr : AttributeId) (ids : List DocumentInstanceId) (inst : DocumentInstance)
    → IsTidy inst
    → Stores attr
        (λ a. contains (targets (related inst attr)) a && not (contains ids a))
        inst
        (disconnect_relations attr ids inst)
disconnect_relations-Stores attr ids inst tidy = elim (Option-cases (Map.get inst.relations attr)) [
  | inl absent ↦
      let same : disconnect_relations attr ids inst ≡ inst =
        unfold disconnect_relations in rw (absent, disconnect_relations) in
      let empty : related inst attr ≡ [] = unfold related in rw (absent, related) in
      rw (same, empty)
        (record {
          distinct = rw empty tt;
          members = λ a. rw empty;
          labelled = rw empty tt;
          others = λ b ne. refl;
          rest = refl;
        })
  | inr (old, present) ↦
      let has : related inst attr ≡ old = related_of_get inst attr old present in
      let same : disconnect_relations attr ids inst
          ≡ record inst { relations = Map.insert inst.relations attr (retain (keeps ids) old) } =
        unfold disconnect_relations in rw (present, disconnect_relations) in
      let found =
        related_of_get
          (record inst { relations = Map.insert inst.relations attr (retain (keeps ids) old) }) attr
          (retain (keeps ids) old) (Map.get-insert_self inst.relations attr _) in
      let kept = retain-IsTidyList attr ids old (rw has at (tidy attr)) in
      rw (same, has)
        (record {
          distinct = rw found (kept.0);
          members = λ a. rw found (contains-retain ids old a);
          labelled = rw found (kept.1);
          others = λ b ne. get-insert_ne inst.relations attr b _ ne;
          rest = refl;
        })
]

-- `unset_relations` leaves the attribute without targets, and all else of the instance as it was.
pub unset_relations-Stores :
    (attr : AttributeId) (inst : DocumentInstance)
    → Stores attr (λ a. false) inst (unset_relations attr inst)
unset_relations-Stores attr inst =
    let absent : Map.get (unset_relations attr inst).relations attr ≡ none =
      unfold unset_relations in ground (arith, Map.get-remove inst.relations attr attr) in
    let empty : related (unset_relations attr inst) attr ≡ [] =
      unfold related in rw (absent, related) in
    record {
      distinct = rw empty tt;
      members = λ a. rw empty;
      labelled = rw empty tt;
      others =
          λ b ne. unfold unset_relations in ground (arith, Map.get-remove inst.relations attr b);
      rest = unfold unset_relations in refl;
    }

pub Stores-related :
    {attr : AttributeId} {wanted : DocumentInstanceId → Bool} {inst after : DocumentInstance}
    → Stores attr wanted inst after
    → (b : AttributeId) → b ≢ attr
    → related after b ≡ related inst b
Stores-related st b differ = unfold related in rw (st.others b differ, related)

-- What `Stores` says keeps an instance tidy.
pub Stores-IsTidy :
    {attr : AttributeId} {wanted : DocumentInstanceId → Bool} {inst after : DocumentInstance}
    → Stores attr wanted inst after
    → IsTidy inst
    → IsTidy after
Stores-IsTidy {attr} {inst} {after} st tidy b = elim (string_eq.dec b attr) [
  | yes same ↦ rw same (st.distinct, st.labelled)
  | no differ ↦ rw (Stores-related st b differ) (tidy b)
]
