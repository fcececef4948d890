-- ===== src/Tests/ReadExamples.antt =====
-- The theorems on reads and on has-one relations at concrete inputs.
use luminair_service_aws_dsq.Base.{
  true, none, some, [], ◌∷◌, ◌≡◌, refl, ok, nat_eq, string_eq, option_eq, find_first, arith,
}
use luminair_service_aws_dsq.Base.Map
use luminair_service_aws_dsq.Base.IndexSet
use luminair_service_aws_dsq.Domain.Schema.{Relation, has_one}
use luminair_service_aws_dsq.Domain.Registry
use luminair_service_aws_dsq.Domain.Registry.{find_relation_for_attr}
use luminair_service_aws_dsq.Domain.Instance
use luminair_service_aws_dsq.Domain.Instance.{PopulatedInstance, is_owned_by}
use luminair_service_aws_dsq.Domain.Auth.{read_document, can}
use luminair_service_aws_dsq.Application.Context.{caller_can, check_permission}
use luminair_service_aws_dsq.Application.Commands.{FindByIdCommand, set}
use luminair_service_aws_dsq.Application.Enrich.{bare, enrich}
use luminair_service_aws_dsq.Application.Documents.{answer, find_by_id}
use luminair_service_aws_dsq.Application.Documents.Reads.{answer-some, find_by_id-allowed}
use luminair_service_aws_dsq.Application.Relations.{
  apply_relations, apply_relation, apply_action, collect_set, set_insert,
}
use luminair_service_aws_dsq.Application.Relations.Singular.{IsSingular, apply_relations-IsSingular}
use luminair_service_aws_dsq.Tests.Fixtures.{
  crates, documents, context, editor, article, articles, tags, article_tags, article-IsTidy,
}

answered : (answer crates documents context "article" none article []).0 ≡ ok (some (bare article))
unfolding answer
answered = refl

answer-some_example :
    (p : PopulatedInstance) × (some (bare article) ≡ some p) × (p.instance_of ≡ article)
answer-some_example =
    answer-some documents crates context "article" none article [] (some (bare article)) answered

abbrev find_article : FindByIdCommand
find_article = record { document_type = "article"; document_instance_id = 10; populate = none }

shown :
    (find_by_id crates documents context editor find_article (article ∷ [])).0
    ≡ ok (some (bare article))
unfolding find_by_id check_permission can is_owned_by find_first nat_eq string_eq option_eq enrich
shown = refl

find_by_id-allowed_example :
    (documents.find_by_id "article" 10 (article ∷ []) ≡ ok (some article))
    × (caller_can editor (read_document (some "article")) (some article) ≡ true)
find_by_id-allowed_example =
    find_by_id-allowed documents crates context editor find_article (article ∷ []) (bare article)
      shown

-- Articles have one author.
abbrev article_author : Relation
article_author = record {
  id = "article-author";
  owner_type = "article";
  owner_attr = "author";
  owner_kind = has_one;
  target_type = "tag";
  inverse = none;
}

abbrev schema : Registry.SchemaRegistry
schema = Registry.new (articles ∷ tags ∷ []) (article_tags ∷ article_author ∷ [])

article-IsSingular : IsSingular schema "article" article
unfolding Instance.related Map.get
article-IsSingular attr rel known single = ground arith

authored : (apply_relations schema "article" (("author", set (6 ∷ 6 ∷ [])) ∷ []) article).0 ≡ ok tt
unfolding Registry.new Registry.add_types Registry.add_relations IndexSet.get IndexSet.insert
    string_eq nat_eq option_eq apply_relations apply_relation apply_action find_relation_for_attr
    find_first collect_set set_insert Instance.set_relations Instance.related Instance.push_unseen
    Map.get Map.insert
authored = refl

apply_relations-IsSingular_example :
    IsSingular schema "article"
      (apply_relations schema "article" (("author", set (6 ∷ 6 ∷ [])) ∷ []) article).1
apply_relations-IsSingular_example =
    apply_relations-IsSingular schema "article" (("author", set (6 ∷ 6 ∷ [])) ∷ []) article
      article-IsTidy article-IsSingular authored
