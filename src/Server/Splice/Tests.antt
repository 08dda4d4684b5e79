-- ===== src/Server/Splice/Tests.antt =====
-- Texts that get an entry, as in the tests of src/bin/g2mirror-server.rs.
use g2mirror.Prelude.{◌≡◌, refl, none, some, Bytes, ascii}
use g2mirror.Prelude.Results.{ok}
use g2mirror.Jsonc.{strip_comments}
use g2mirror.Server.Splice.{insert_token_text}
use g2mirror.Server.Splice.Kept.{Splices, insert_token_text-splices}

abbrev entry : Bytes
entry = ascii "{\n  \"name\": \"rob\"\n}"

-- Brackets, comment marks and the key itself stand in a string.
abbrev config : Bytes
config =
    ascii
      "{ // gateway\n \"x\": {\"auth_tokens\": 1}, \"auth_tokens\" : [ \"a /* ] \\\" auth_tokens // [\" // mine ]\n ] }"

abbrev edited : Bytes
edited =
    ascii
      "{ // gateway\n \"x\": {\"auth_tokens\": 1}, \"auth_tokens\" : [ \"a /* ] \\\" auth_tokens // [\",\n    {\n      \"name\": \"rob\"\n    } // mine ]\n ] }"

spliced : insert_token_text config entry ≡ some (ok (some edited))
unfolding insert_token_text strip_comments
spliced = refl

to_empty :
    insert_token_text (ascii "{\"auth_tokens\": []}") (ascii "{}")
    ≡ some (ok (some (ascii "{\"auth_tokens\": [\n    {}\n  ]}")))
unfolding insert_token_text strip_comments
to_empty = refl

without_array : insert_token_text (ascii "{\"port\": 1}") (ascii "{}") ≡ some (ok none)
unfolding insert_token_text strip_comments
without_array = refl

insert_token_text-splices_example : Splices config entry edited
insert_token_text-splices_example = insert_token_text-splices config entry edited spliced
