-- ===== src/Mssmt/Tree/Examples.antt =====
-- The theorems on the tree at concrete inputs.
use rust_tap.Common.{◌-◌, ◌^◌, ◌≡◌, refl, arith, true, [], ◌∷◌, ok, err, replicate}
use rust_tap.Mssmt.Toy.{toy_sha256}
use rust_tap.Mssmt.Node.{Key, Node, LeafNode, empty_leaf}
use rust_tap.Mssmt.Proof.{Proof, verify_merkle_proof}
use rust_tap.Mssmt.Store.{DefaultStore, new_store, root_node}
use rust_tap.Mssmt.Tree.{
  insert, merkle_proof, get, delete, check_sum_overflow_u64, integer_overflow,
}
use rust_tap.Mssmt.Tree.Insertion.{verify_merkle_proof-insert, verify_merkle_proof-delete}
use rust_tap.Mssmt.Tree.Empty.{
  get-new_store, merkle_proof-new_store, insert-new_store, delete-new_store,
}

abbrev one_key : Key
one_key = replicate 32 5

abbrev note : LeafNode
note = record { value = 1 ∷ 2 ∷ []; sum = 9 }

overflow_run : check_sum_overflow_u64 (2 ^ 64 - 3) 3 ≡ err (integer_overflow (2 ^ 64 - 3) 3)
unfolding check_sum_overflow_u64
overflow_run = refl

get_of_one : get new_store one_key ≡ ok empty_leaf
get_of_one = get-new_store one_key

abbrev proof_of : (p : Proof) × (merkle_proof new_store one_key ≡ ok p)
proof_of = merkle_proof-new_store one_key

insert-new_store_example : (s : DefaultStore) × (insert new_store one_key note ≡ ok s)
insert-new_store_example = insert-new_store one_key note (omega arith)

abbrev inserted : (s : DefaultStore) × (insert new_store one_key note ≡ ok s)
inserted = insert-new_store one_key note (omega arith)

abbrev rooted_at : (s : DefaultStore) → (top : Node) × (root_node s ≡ ok top)
unfolding root_node
rooted_at s = (_, refl)

verify_merkle_proof-insert_example :
    verify_merkle_proof one_key note proof_of.0 (rooted_at inserted.0).0 ≡ true
verify_merkle_proof-insert_example =
    verify_merkle_proof-insert new_store inserted.0 one_key note proof_of.0 (rooted_at inserted.0).0
      proof_of.1 inserted.1 (rooted_at inserted.0).1

abbrev deleted : (s : DefaultStore) × (delete new_store one_key ≡ ok s)
deleted = delete-new_store one_key

verify_merkle_proof-delete_example :
    verify_merkle_proof one_key empty_leaf proof_of.0 (rooted_at deleted.0).0 ≡ true
verify_merkle_proof-delete_example =
    verify_merkle_proof-delete new_store deleted.0 one_key proof_of.0 (rooted_at deleted.0).0
      proof_of.1 deleted.1 (rooted_at deleted.0).1
