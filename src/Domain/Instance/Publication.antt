-- ===== src/Domain/Instance/Publication.antt =====
-- The draft and publish life of a document: its revisions and versions.
use luminair_service_aws_dsq.Base.{
  ℕ, zero, suc, ◌+◌, ◌≤◌, ◌<◌, ◌≡◌, refl, Option, none, some, arith, ok,
}
use luminair_service_aws_dsq.Domain.Ids.{
  DocumentInstanceId, DocumentTypeId, UserId, DateTime, u32_modulus,
}
use luminair_service_aws_dsq.Domain.Instance.{
  PublicationState, draft, published, DocumentInstance, new, touch, publish, unpublish,
  new_revision,
}

-- The revision that was published last, 0 if there is none.
abbrev pub last_revision : PublicationState → ℕ
last_revision (draft none) = 0
last_revision (draft (some last)) = last
last_revision (published revision _ _) = revision

new_revision_lem :
    (state : PublicationState)
    → last_revision state + 1 < u32_modulus
    → new_revision state ≡ last_revision state + 1
unfolding new_revision
new_revision_lem (draft none) h = omega arith
new_revision_lem (draft (some last)) h = omega arith
new_revision_lem (published revision _ _) h = omega arith

-- `n` successful edits of `start` led to the instance, `k` of them publications.
pub data History (start : DocumentInstance) : ℕ → ℕ → DocumentInstance → Type 0 where
  begin : History start zero zero start
  touching :
      {n k : ℕ} {inst : DocumentInstance} (by : Option UserId) (now : DateTime)
      → History start n k inst
      → History start (suc n) k (touch by now inst)
  publishing :
      {n k : ℕ} {inst : DocumentInstance} (by : Option UserId) (now : DateTime)
      → History start n k inst
      → History start (suc n) (suc k) (publish by now inst).1
  unpublishing :
      {n k : ℕ} {inst : DocumentInstance} (now : DateTime)
      → (unpublish now inst).0 ≡ ok tt
      → History start n k inst
      → History start (suc n) k (unpublish now inst).1

pub record IsCounted (n k : ℕ) (inst : DocumentInstance) : Type 0 where
  pub version : inst.audit.version ≡ n + 1
  pub revision : last_revision inst.content.publication_state ≡ k
  pub fewer : k ≤ n

touch-counts :
    (by : Option UserId) (now : DateTime) (n k : ℕ) (inst : DocumentInstance)
    → suc n + 1 < u32_modulus
    → IsCounted n k inst
    → IsCounted (suc n) k (touch by now inst)
unfolding touch
touch-counts by now n k inst bound c = ground arith

unpublish-counts :
    (now : DateTime) (n k : ℕ) (inst : DocumentInstance)
    → suc n + 1 < u32_modulus
    → (unpublish now inst).0 ≡ ok tt
    → IsCounted n k inst
    → IsCounted (suc n) k (unpublish now inst).1
unfolding unpublish
unpublish-counts now n k inst bound done c = ground arith

publish-counts :
    (by : Option UserId) (now : DateTime) (n k : ℕ) (inst : DocumentInstance)
    → suc n + 1 < u32_modulus
    → IsCounted n k inst
    → IsCounted (suc n) (suc k) (publish by now inst).1
unfolding publish touch
publish-counts by now n k inst bound c = record {
  version = ground (arith, c.version);
  revision = ground (arith, c.revision, c.fewer, new_revision_lem inst.content.publication_state);
  fewer = ground (arith, c.fewer);
}

-- From a new document, and below the wrap-around of `u32`, the version is one more than the number
-- of edits, and the revision published last is the number of publications.
pub History-IsCounted :
    (id : DocumentInstanceId) (type_id : DocumentTypeId) (by : Option UserId) (now : DateTime)
    {n k : ℕ} {inst : DocumentInstance}
    → n + 1 < u32_modulus
    → History (new id type_id by now) n k inst
    → IsCounted n k inst
unfolding new
History-IsCounted id type_id by now bound begin = record {
  version = omega arith;
  revision = refl;
  fewer = omega arith;
}
History-IsCounted id type_id by now bound (touching {n} {k} {inst} who when h) =
    touch-counts who when n k inst bound (History-IsCounted id type_id by now (omega arith) h)
History-IsCounted id type_id by now bound (publishing {n} {k} {inst} who when h) =
    publish-counts who when n k inst bound (History-IsCounted id type_id by now (omega arith) h)
History-IsCounted id type_id by now bound (unpublishing {n} {k} {inst} when done h) =
    unpublish-counts when n k inst bound done (History-IsCounted id type_id by now (omega arith) h)
