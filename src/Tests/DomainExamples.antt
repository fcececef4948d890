-- ===== src/Tests/DomainExamples.antt =====
-- The domain's theorems at concrete inputs.
use luminair_service_aws_dsq.Base.{
  true, none, some, List, [], ◌∷◌, ◌≡◌, refl, ◌↔◌, ◌⊎◌, ok, nat_eq, string_eq, option_eq, arith,
}
use luminair_service_aws_dsq.Base.Int.{negsuc}
use luminair_service_aws_dsq.Base.IndexSet
use luminair_service_aws_dsq.Domain.Schema.{i16, view_for}
use luminair_service_aws_dsq.Domain.Schema as Sch
use luminair_service_aws_dsq.Domain.Values as Val
use luminair_service_aws_dsq.Domain.Values.{matches_field_type}
use luminair_service_aws_dsq.Domain.Values.Typing.{HasType, matches_field_type_iff}
use luminair_service_aws_dsq.Domain.Instance
use luminair_service_aws_dsq.Domain.Instance.{
  DocumentInstance, PublicationState, draft, published, targets, related, set_relations,
  connect_relations, disconnect_relations, unset_relations, new_revision,
}
use luminair_service_aws_dsq.Domain.Instance.Publication.{
  History, touching, unpublishing, IsCounted, History-IsCounted,
}
use luminair_service_aws_dsq.Domain.Instance.Edits.{
  begin, edit, publishing, setting, connecting, IsKept, Edits-IsKept,
}
use luminair_service_aws_dsq.Domain.AccessRequest.Sequence.{
  Review, approving, rejecting, SettlesOnce, reviews-SettlesOnce,
}
use luminair_service_aws_dsq.Domain.Auth.{can, publish_document}
use luminair_service_aws_dsq.Domain.Auth.Rules.{IsOwnersRight, HasGrant, can_iff}
use luminair_service_aws_dsq.Domain.AccessRequest
use luminair_service_aws_dsq.Domain.AccessRequest.{AccessRequest}
use luminair_service_aws_dsq.Domain.AccessRequest.Review.{ApprovalOf, approve-ApprovalOf}
use luminair_service_aws_dsq.Domain.Registry
use luminair_service_aws_dsq.Domain.Registry.{find_type, find_type_by_name, type_key}
use luminair_service_aws_dsq.Domain.Registry.Lookup.{
  name_key, find_type_by_name-new, ViewOf, view_for-ViewOf,
}
use luminair_service_aws_dsq.Domain.Validator.{validate_content}
use luminair_service_aws_dsq.Domain.Validator.Correct.{Conforms, validate_content_iff}
use luminair_service_aws_dsq.Tests.Fixtures.{
  crates, config, editor, article, articles, tags, article_tags,
}

matches_field_type_iff_example :
    (matches_field_type
        (Val.primitive (Val.integer (negsuc 32767)))
        (Sch.primitive (Sch.integer i16))
      ≡ true)
    ↔ HasType (Val.primitive (Val.integer (negsuc 32767))) (Sch.primitive (Sch.integer i16))
matches_field_type_iff_example =
    matches_field_type_iff (Val.primitive (Val.integer (negsuc 32767)))
      (Sch.primitive (Sch.integer i16))

abbrev fresh_article : DocumentInstance
fresh_article = Instance.new 10 "article" (some "ada") 7

abbrev edited : DocumentInstance
edited =
    (Instance.unpublish 9
      (Instance.publish (some "ada") 8 (Instance.touch none 8 fresh_article)).1).1

history : History fresh_article 3 1 edited
unfolding Instance.unpublish Instance.publish Instance.touch Instance.new new_revision
history = unpublishing 9 refl (History.publishing (some "ada") 8 (touching none 8 History.begin))

History-IsCounted_example : IsCounted 3 1 edited
History-IsCounted_example = History-IsCounted 10 "article" (some "ada") 7 (omega arith) history

abbrev tagged : Instance.DocumentInstance
tagged =
    Instance.connect_relations "tags" (5 ∷ 6 ∷ [])
      (Instance.set_relations "tags" (5 ∷ 5 ∷ []) (Instance.publish none 8 fresh_article).1)

Edits-IsKept_example : IsKept fresh_article tagged
Edits-IsKept_example = Edits-IsKept 10 "article" (some "ada") 7 (
    edit (edit (edit begin (publishing none 8)) (setting "tags" (5 ∷ 5 ∷ [])))
      (connecting "tags" (5 ∷ 6 ∷ [])))

can_iff_example :
    (can "ada" (publish_document (some "article")) (some article) editor.roles ≡ true) ↔ (
      IsOwnersRight "ada" (publish_document (some "article")) (some article)
      ⊎ HasGrant editor.roles (publish_document (some "article")))
can_iff_example = can_iff "ada" (publish_document (some "article")) (some article) editor.roles

abbrev request : AccessRequest
request = AccessRequest.new 20 "bob" none none 7

approve-ApprovalOf_example :
    ApprovalOf "ada" (1 ∷ []) 8 request (AccessRequest.approve (λ i. i) "ada" (1 ∷ []) 8 request)
approve-ApprovalOf_example = approve-ApprovalOf (λ i. i) "ada" (1 ∷ []) 8 request

-- An approval without roles fails, a rejection decides, and an approval comes too late.
abbrev reviews : List Review
reviews =
    approving (λ i. i) "ada" [] 8
    ∷ rejecting "ada" none 9
    ∷ approving (λ i. i) "ada" (1 ∷ []) 10
    ∷ []

reviews-SettlesOnce_example : SettlesOnce reviews request
reviews-SettlesOnce_example = reviews-SettlesOnce reviews request

find_type_by_name-new_example :
    find_type_by_name (Registry.new (articles ∷ tags ∷ []) (article_tags ∷ [])) "tags"
    ≡ IndexSet.get name_key (articles ∷ tags ∷ []) "tags"
find_type_by_name-new_example =
    find_type_by_name-new (articles ∷ tags ∷ []) (article_tags ∷ []) "tags"
      (unfold string_eq in (refl, (refl, tt))) (unfold string_eq in (refl, (refl, tt)))

view_for-ViewOf_example : ViewOf article_tags "tag" (view_for article_tags "tag")
view_for-ViewOf_example = view_for-ViewOf article_tags "tag"

validate_content_iff_example :
    (validate_content crates config articles article.content ≡ ok tt)
    ↔ Conforms crates config articles article.content
validate_content_iff_example = validate_content_iff crates config articles article.content
