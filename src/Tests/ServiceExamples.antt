-- ===== src/Tests/ServiceExamples.antt =====
-- The services' theorems at concrete inputs.
use luminair_service_aws_dsq.Base.{some, [], ◌∷◌, ◌≡◌, refl, ok, ◌⊎◌, nat_eq, string_eq}
use luminair_service_aws_dsq.Domain.Instance
use luminair_service_aws_dsq.Application.Documents.{create, update, publish, unpublish, delete}
use luminair_service_aws_dsq.Application.Documents.Rules.{SavesOnly}
use luminair_service_aws_dsq.Application.Documents.Writes.{
  IsCreated, create-SavesOnly, IsUpdated, update-SavesOnly,
}
use luminair_service_aws_dsq.Application.Documents.Publishing.{
  IsTransition, publish-SavesOnly, unpublish-SavesOnly, IsDeletable, delete-changes,
}
use luminair_service_aws_dsq.Application.Commands.{DeleteDocumentCommand}
use luminair_service_aws_dsq.Base.{option_eq, find_first}
use luminair_service_aws_dsq.Base.Map
use luminair_service_aws_dsq.Base.IndexSet
use luminair_service_aws_dsq.Domain.Registry
use luminair_service_aws_dsq.Domain.Registry.{find_relation_for_attr}
use luminair_service_aws_dsq.Domain.Instance.{targets, related}
use luminair_service_aws_dsq.Application.Relations.{
  apply_relations, apply_relation, apply_action, collect_set, set_insert,
}
use luminair_service_aws_dsq.Application.Relations.Outcome.{Applied, apply_relations-Applied}
use luminair_service_aws_dsq.Application.Commands.{connect}
use luminair_service_aws_dsq.Application.Ports.{RelationMap}
use luminair_service_aws_dsq.Application.Enrich.{stitch}
use luminair_service_aws_dsq.Application.Enrich.Stitching.{AreStitched, stitch-AreStitched}
use luminair_service_aws_dsq.Tests.Fixtures.{article-IsTidy}
use luminair_service_aws_dsq.Tests.Fixtures.{schema}
use luminair_service_aws_dsq.Tests.Fixtures.{
  crates, documents, context, editor, article, create_command, update_command,
}

create-SavesOnly_example :
    SavesOnly documents
      (IsCreated crates documents context editor create_command 10 7 [])
      []
      (create crates documents context editor create_command 10 7 []).1
create-SavesOnly_example = create-SavesOnly crates documents context editor create_command 10 7 []

update-SavesOnly_example :
    SavesOnly documents
      (IsUpdated crates documents context editor update_command 8 (article ∷ []))
      (article ∷ [])
      (update crates documents context editor update_command 8 (article ∷ [])).1
update-SavesOnly_example =
    update-SavesOnly crates documents context editor update_command 8 (article ∷ [])

publish-SavesOnly_example :
    SavesOnly documents
      (IsTransition crates documents context
        (λ stored inst. inst ≡ (Instance.publish (some "ada") 9 stored).1)
        editor
        "article"
        10
        (article ∷ []))
      (article ∷ [])
      (publish crates documents context editor
        (record { document_instance_id = 10; document_type = "article" })
        9
        (article ∷ [])).1
publish-SavesOnly_example =
    publish-SavesOnly crates documents context editor
      (record { document_instance_id = 10; document_type = "article" }) 9 (article ∷ [])

unpublish-SavesOnly_example :
    SavesOnly documents
      (IsTransition crates documents context
        (λ stored inst. Instance.unpublish 9 stored ≡ (ok tt, inst))
        editor
        "article"
        10
        (article ∷ []))
      (article ∷ [])
      (unpublish crates documents context editor
        (record { document_instance_id = 10; document_type = "article" })
        9
        (article ∷ [])).1
unpublish-SavesOnly_example =
    unpublish-SavesOnly crates documents context editor
      (record { document_instance_id = 10; document_type = "article" }) 9 (article ∷ [])

abbrev delete_article : DeleteDocumentCommand
delete_article = record { document_instance_id = 10; document_type = "article" }

delete-changes_example :
    ((delete crates documents context editor delete_article (article ∷ [])).1 ≡ article ∷ [])
    ⊎ (IsDeletable crates documents context editor delete_article (article ∷ [])
        × ((delete crates documents context editor delete_article (article ∷ [])).1
            ≡ (documents.delete "article" 10 (article ∷ [])).1))
delete-changes_example =
    delete-changes crates documents context editor delete_article (article ∷ [])

accepted : (apply_relations schema "article" (("tags", connect (6 ∷ [])) ∷ []) article).0 ≡ ok tt
unfolding Registry.new Registry.add_types Registry.add_relations IndexSet.get IndexSet.insert
    string_eq nat_eq option_eq apply_relations apply_relation apply_action find_relation_for_attr
    find_first collect_set set_insert Instance.connect_relations Instance.related
    Instance.push_unseen Map.get Map.insert
accepted = refl

apply_relations-Applied_example :
    Applied schema "article"
      (("tags", connect (6 ∷ [])) ∷ [])
      article
      (apply_relations schema "article" (("tags", connect (6 ∷ [])) ∷ []) article).1
apply_relations-Applied_example =
    apply_relations-Applied schema "article" (("tags", connect (6 ∷ [])) ∷ []) article
      (unfold Map.get in (refl, tt)) article-IsTidy accepted

abbrev found_tags : RelationMap
found_tags = ("tags", (10, article ∷ []) ∷ []) ∷ []

stitch-AreStitched_example :
    AreStitched
      ("tags" ∷ [])
      found_tags
      (article ∷ [])
      (stitch ("tags" ∷ []) found_tags (article ∷ []))
stitch-AreStitched_example = stitch-AreStitched ("tags" ∷ []) found_tags (article ∷ []) (refl, tt)
