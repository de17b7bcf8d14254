-- ===== src/Artifact/Examples.antt =====
-- Artifacts of src/v2/artifact.rs on a small chain, and the theorems at them.
use hacp.Common.{
  String, ◌≡◌, refl, ◌↔◌, true, false, List, [], ◌∷◌, ok, err, contains, lookup, insert, as_bytes,
  chars, filter_chars, chars_all, split, strip_prefix,
}
use hacp.Envelope.Urn
use hacp.Walk.{visit}
use hacp.Walk.Order.{listed, resolved}
use hacp.Walk.Search.{search}
use hacp.Artifact.Shape.{is_digest_shape}
use hacp.Artifact.Record.{
  Artifact, participants, supervisor, cycle, unknown_artifact, bad_media_type, validate, new,
  derive, visible_to,
}
use hacp.Artifact.Ancestry.{id_of, parents_of, ancestry}
use hacp.Artifact.Provenance.{Derives, ancestry_finds, ancestry_fails}

-- What a test by `refl` has to unfold.
artifacts : Unit {0}
unfolding visit search ancestry validate new derive visible_to is_digest_shape contains lookup
    insert as_bytes chars filter_chars chars_all split strip_prefix Urn.parse
artifacts = tt

abbrev hash : String
hash = "0123456789abcdef0123456789abcdef0123456789abcdef0123456789abcdef"

abbrev id1 : String
id1 = "urn:hacp:artifact:9f0d0e6a-1111-4222-8333-444444444444"

abbrev id2 : String
id2 = "urn:hacp:artifact:9f0d0e6a-1111-4222-9333-444444444445"

abbrev id3 : String
id3 = "urn:hacp:artifact:9f0d0e6a-1111-4222-a333-444444444446"

abbrev made : String → List String → Artifact
made id parents = record {
  artifact_id = id;
  media_type = "text/plain";
  digest = hash;
  size = 12;
  producer = "urn:hacp:agent:ann";
  task_id = "t-1";
  contract_id = "c-1";
  contract_revision = hash;
  derived_from = parents;
  location = "out.txt";
  visibility = participants;
}

abbrev diamond : List Artifact
diamond = made id1 (id2 ∷ id3 ∷ []) ∷ made id2 (id3 ∷ []) ∷ made id3 [] ∷ []

abbrev looped : List Artifact
looped = made id1 (id2 ∷ []) ∷ made id2 (id3 ∷ []) ∷ made id3 (id2 ∷ []) ∷ []

makes :
    new id1 "text/plain" hash 12 "urn:hacp:agent:ann" "t-1" "c-1" hash "out.txt" ≡ ok (made id1 [])
unfolding artifacts
makes = refl

three_parts :
    new id1 "text/plain/x" hash 12 "urn:hacp:agent:ann" "t-1" "c-1" hash "out.txt"
    ≡ err (bad_media_type "text/plain/x")
unfolding artifacts
three_parts = refl

narrow : visible_to (made id1 []) supervisor ≡ false
unfolding artifacts
narrow = refl

derives : derive (made id2 []) (made id1 []) ≡ made id1 (id2 ∷ [])
unfolding artifacts
derives = refl

visits_once : ancestry diamond id1 ≡ ok (made id3 [] ∷ made id2 (id3 ∷ []) ∷ [])
unfolding artifacts
visits_once = refl

finds_cycle : ancestry looped id1 ≡ err (cycle id2)
unfolding artifacts
finds_cycle = refl

finds_own_cycle : ancestry looped id2 ≡ err (cycle id2)
unfolding artifacts
finds_own_cycle = refl

is_missing : ancestry (made id1 (id2 ∷ []) ∷ []) id1 ≡ err (unknown_artifact id2)
unfolding artifacts
is_missing = refl

abbrev derived : List Artifact
derived = made id1 (id3 ∷ id2 ∷ []) ∷ made id2 (id3 ∷ []) ∷ made id3 [] ∷ []

abbrev upstream : List Artifact
upstream = made id3 [] ∷ made id2 (id3 ∷ []) ∷ []

ancestry_finds_example :
    (resolved id_of parents_of [] (made id3 [] ∷ made id2 (id3 ∷ []) ∷ []) ≡ true)
    × ((k : String)
        → (listed id_of k (made id3 [] ∷ made id2 (id3 ∷ []) ∷ []) ≡ true) ↔ Derives diamond id1 k)
    × ((k : String) → Derives diamond id1 k → ¬ Derives diamond k k)
unfolding artifacts
ancestry_finds_example = ancestry_finds diamond id1 (made id3 [] ∷ made id2 (id3 ∷ []) ∷ []) refl

ancestry_fails_example : Derives looped id1 id2 × Derives looped id2 id2
unfolding artifacts
ancestry_fails_example = ancestry_fails looped id1 (cycle id2) refl
