-- ===== src/Domain/Ids.antt =====
-- Identifiers and opaque values (domain/src/*/ids.rs). A validated string newtype is its string. A
-- `Uuid`, a `Decimal`, a `NaiveDate` and an instant are values of other crates, of which the code
-- only copies and compares some: a number stands for each, and what else a crate does with them is
-- a parameter where it is used.
use luminair_service_aws_dsq.Base.{ℕ, String}

abbrev pub Uuid : Type 0
Uuid = ℕ

abbrev pub Decimal : Type 0
Decimal = ℕ

abbrev pub NaiveDate : Type 0
NaiveDate = ℕ

abbrev pub DateTime : Type 0
DateTime = ℕ

abbrev pub DocumentInstanceId : Type 0
DocumentInstanceId = Uuid

abbrev pub RoleId : Type 0
RoleId = Uuid

abbrev pub UserRoleAssignmentId : Type 0
UserRoleAssignmentId = Uuid

abbrev pub AccessRequestId : Type 0
AccessRequestId = Uuid

abbrev pub SystemConfigId : Type 0
SystemConfigId = Uuid

abbrev pub DocumentTypeId : Type 0
DocumentTypeId = String

abbrev pub AttributeId : Type 0
AttributeId = String

abbrev pub RelationId : Type 0
RelationId = String

abbrev pub UserId : Type 0
UserId = String

abbrev pub LocaleId : Type 0
LocaleId = String

abbrev pub Email : Type 0
Email = String

abbrev pub Url : Type 0
Url = String

abbrev pub DisplayName : Type 0
DisplayName = String

-- `u32` arithmetic wraps.
abbrev pub u32_modulus : ℕ
u32_modulus = 4_294_967_296
