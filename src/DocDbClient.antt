-- ===== src/DocDbClient.antt =====
-- cpp/doc_db_client/doc_db_client.h and doc_db_client.cc, over the stub that gRPC makes of the DocDb
-- service. A call of the stub takes the state of the world outside and gives the one after it.
pub mod Requests
pub mod Demo
mod Tests
use moon_base.Base.{String, Bool, true, false, [], ◌∷◌, str_eq, if◌then◌else◌}
use moon_base.Base.Dict.{Dict, insert}
use moon_base.Absl.{Status, StatusCode, code_ok, StatusOr, ok, err, invalid_argument_error}

pub record DocIdAndVersion : Type 0 where
  pub id : String
  pub version : String

pub record Doc : Type 0 where
  pub id : String
  pub version : String
  pub bytes : String
  pub tags : Dict String

pub record DocEgg : Type 0 where
  pub bytes : String
  pub tags : Dict String

-- `DocDb::StubInterface`: what an rpc is given is the metadata `db_namespace` and the fields of the
-- request; what it answers is a gRPC status and the fields of the reply.
pub record Stub (W : Type 0) : Type 0 where
  pub rpc_insert_doc : String → String → DocEgg → W → (Status × DocIdAndVersion) × W
  pub rpc_update_doc :
      String → String → DocIdAndVersion → DocEgg → W → (Status × DocIdAndVersion) × W
  pub rpc_find_doc_by_id : String → String → String → W → (Status × Doc) × W
  pub rpc_find_doc : String → String → Dict String → W → (Status × Doc) × W

-- `grpc::Status::ok`
abbrev pub is_ok_code : StatusCode → Bool
is_ok_code code_ok = true
is_ok_code _ = false

-- The loop that copies tags into those of a request.
abbrev pub copy_tags : Dict String → Dict String → Dict String
copy_tags [] tags = tags
copy_tags ((k, v) ∷ kvs) tags = copy_tags kvs (insert k v tags)

-- `PopulateDocEgg`
abbrev pub populate_doc_egg : DocEgg → DocEgg
populate_doc_egg egg = record { bytes = egg.bytes; tags = copy_tags egg.tags [] }

-- `HandleIdAndVersionResponse`; absl's status codes have the values of gRPC's.
abbrev pub handle_id_and_version_response : Status → String → String → StatusOr DocIdAndVersion
handle_id_and_version_response status id version =
    if is_ok_code status.code then ok (record { id = id; version = version }) else err status

-- `HandleDocResponse`
abbrev pub handle_doc_response : Status → Doc → StatusOr Doc
handle_doc_response status doc =
    if is_ok_code status.code
    then ok (record {
      id = doc.id;
      version = doc.version;
      bytes = doc.bytes;
      tags = copy_tags doc.tags [];
    })
    else err status

module _ {W : Type 0} (stub : Stub W) (db : String) where
  -- `DocDbClient::InsertDoc`
  unfoldable pub insert_doc : String → DocEgg → W → StatusOr DocIdAndVersion × W
  insert_doc collection egg w =
      if str_eq collection ""
      then (err (invalid_argument_error "collection cannot be empty"), w)
      else if str_eq egg.bytes ""
      then (err (invalid_argument_error "bytes cannot be empty"), w)
      else let ((status, reply), w') = stub.rpc_insert_doc db collection (populate_doc_egg egg) w in
        (handle_id_and_version_response status reply.id reply.version, w')

  -- `DocDbClient::UpdateDoc`
  unfoldable pub update_doc : String → DocIdAndVersion → DocEgg → W → StatusOr DocIdAndVersion × W
  update_doc collection at egg w =
      if str_eq collection ""
      then (err (invalid_argument_error "collection cannot be empty"), w)
      else if str_eq at.id ""
      then (err (invalid_argument_error "id cannot be empty"), w)
      else if str_eq at.version ""
      then (err (invalid_argument_error "version cannot be empty"), w)
      else if str_eq egg.bytes ""
      then (err (invalid_argument_error "bytes cannot be empty"), w)
      else let ((status, reply), w') =
          stub.rpc_update_doc db collection at (populate_doc_egg egg) w in
        (handle_id_and_version_response status reply.id reply.version, w')

  -- `DocDbClient::FindDocById`
  unfoldable pub find_doc_by_id : String → String → W → StatusOr Doc × W
  find_doc_by_id collection id w =
      if str_eq collection ""
      then (err (invalid_argument_error "collection cannot be empty"), w)
      else if str_eq id ""
      then (err (invalid_argument_error "id cannot be empty"), w)
      else let ((status, doc), w') = stub.rpc_find_doc_by_id db collection id w in
        (handle_doc_response status doc, w')

  -- `DocDbClient::FindDocByTags`
  unfoldable pub find_doc_by_tags : String → Dict String → W → StatusOr Doc × W
  find_doc_by_tags collection [] w =
      if str_eq collection ""
      then (err (invalid_argument_error "collection cannot be empty"), w)
      else (err (invalid_argument_error "tags cannot be empty"), w)
  find_doc_by_tags collection (t ∷ tags) w =
      if str_eq collection ""
      then (err (invalid_argument_error "collection cannot be empty"), w)
      else let ((status, doc), w') = stub.rpc_find_doc db collection (copy_tags (t ∷ tags) []) w in
        (handle_doc_response status doc, w')
