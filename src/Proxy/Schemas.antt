-- ===== src/Proxy/Schemas.antt =====
-- The schemas that a proxy has defined on the server for its clients, in
-- object_database/proxy_server.py.
pub mod Merge
use object_database.Prelude.{
  String, Bool, true, false, ◌&&◌, Option, none, some, List, [], ◌∷◌, ◌++◌, beq, string_eq, list_eq,
}
use object_database.Collections.Dict.{get, insert}
use object_database.Collections.Set.{difference}
use object_database.Schema.{TypeDefinition}
use object_database.Server.Messages.{SchemaDefinition}

-- `[x for x in names2 if x not in names1]` after `names1`.
unfoldable pub merge_names : List String → List String → List String
merge_names names1 names2 = names1 ++ difference names2 names1

-- mergeTypeDefinition
unfoldable pub merge_type_definition : TypeDefinition → TypeDefinition → TypeDefinition
unfolding merge_names
merge_type_definition t1 t2 = record {
  fields = merge_names t1.fields t2.fields;
  indices = merge_names t1.indices t2.indices;
}

unfoldable pub merge_over : Option TypeDefinition → TypeDefinition → TypeDefinition
unfolding merge_type_definition
merge_over none typedef = typedef
merge_over (some old) typedef = merge_type_definition old typedef

-- mergeSchemaDefinitions
unfoldable pub merge_schema_definitions : SchemaDefinition → SchemaDefinition → SchemaDefinition
unfolding merge_over
merge_schema_definitions out [] = out
merge_schema_definitions out ((typename, typedef) ∷ types) =
    merge_schema_definitions (insert typename (merge_over (get out typename) typedef) out) types

unfoldable pub same_type_definition : TypeDefinition → TypeDefinition → Bool
same_type_definition t1 t2 = beq t1.fields t2.fields && beq t1.indices t2.indices

unfoldable pub is_within : SchemaDefinition → SchemaDefinition → Bool
unfolding same_type_definition
is_within [] d = true
is_within ((typename, typedef) ∷ types) d =
    elim (get d typename) [ none ↦ false | some other ↦ same_type_definition typedef other ]
    && is_within types d

-- `==` of two ConstDicts, which does not depend on an order of their entries.
unfoldable pub same_schema : SchemaDefinition → SchemaDefinition → Bool
unfolding is_within
same_schema d1 d2 = is_within d1 d2 && is_within d2 d1
