-- ===== src/Protocol/Saving.antt =====
-- The saving of a result's arrays follows the protocol.
use iql.Base.{ℕ, suc, ◌+◌, Bool, true, Option, none, some, List, [], ◌∷◌, arith}
use iql.Text.{Text}
use iql.Fault.{Fault, crash}
use iql.Table.{IqlTable, get_column, set_filenames}
use iql.Table.Import.{DataFormat, RasElement, RasValue, mdd, printed}
use iql.Exec.{Backend, pure, raise, gets, lift, ◌>>◌}
use iql.Exec.Triple.{Triple, Triple-if, Triple-bind, Triple-try_catch}
use iql.Rasdaman
use iql.Rasdaman.Closed.{Ends}
use iql.Query.Files.{
  Files, file_of, save_new, save_object, save_objects, save_column, save_columns, is_pair,
  some_column, save_rasdaman_objects,
}
use iql.Protocol.{
  InStep, Stays, Stays-bind, Stays-pure, Stays-raise, Stays-gets, Stays-lift, follows,
}
use iql.Protocol.Rasdaman.{Active, connect_lem}

module _ (b : Backend) (n : Ends b) where
  execute_lem :
      (q : Text) → Triple (Active b) (Rasdaman.execute b q) (λ _. InStep b) (λ _. InStep b)
  unfolding Rasdaman.execute follows
  execute_lem q = record { at = λ w h. grind (arith, n.commits, n.aborts, n.closes) }

  the_mdd_lem : (es : List RasElement) → Stays b (Rasdaman.the_mdd b es)
  the_mdd_lem [] = Stays-raise b _
  the_mdd_lem (e ∷ []) = value_lem e.value
    where
      value_lem :
          (v : RasValue) → Stays b (elim v [ mdd format ↦ pure format | printed s ↦ raise crash ])
      value_lem (mdd format) = Stays-pure b format
      value_lem (printed s) = Stays-raise b crash
  the_mdd_lem (e ∷ f ∷ es) = Stays-raise b _

  give_up_lem :
      (e : Fault)
      → Stays b {A = DataFormat} ((Rasdaman.abort_ta b) >> (Rasdaman.disconnect b) >> raise e)
  unfolding Rasdaman.abort_ta Rasdaman.disconnect follows
  give_up_lem e = record { at = λ w h. grind (arith, n.commits, n.aborts, n.closes) }

  -- The transaction that the query leaves open is in step.
  query_by_oid-InStep : (q : Text) → Stays b (Rasdaman.query_by_oid b q)
  unfolding Rasdaman.query_by_oid Rasdaman.guarded
  query_by_oid-InStep q =
      Triple-bind (λ _. Active b) (Rasdaman.connect b) _ (connect_lem b n)
        λ _.
          Triple-try_catch (λ _. InStep b) (λ _. InStep b) _ Rasdaman.is_r_error _
            (Triple-bind (λ _. InStep b) (Rasdaman.execute b q) (Rasdaman.the_mdd b) (execute_lem q)
              the_mdd_lem)
            (λ e c. give_up_lem e) (λ e w c h. h)

  save_mdd-InStep :
      (format : DataFormat) (store : Bool) (i : ℕ) → Stays b (Rasdaman.save_mdd b format store i)
  unfolding Rasdaman.save_mdd follows
  save_mdd-InStep format store i = record {
    at = λ w h. grind (arith, n.commits, n.aborts, n.closes);
  }

  save_new-InStep : (coll oid : Text) (fs : Files) → Stays b (save_new b coll oid fs)
  unfolding save_new
  save_new-InStep coll oid fs = Stays-bind b (gets (λ w. w.encode)) _ (Stays-gets b _) λ e.
      Stays-bind b (Rasdaman.query_by_oid b _) _ (query_by_oid-InStep _) λ format.
        Stays-bind b (Rasdaman.save_mdd b format true (suc fs.index)) _
          (save_mdd-InStep format true (suc fs.index)) λ name. Stays-pure b _

  save_object-InStep : (coll oid : Text) (fs : Files) → Stays b (save_object b coll oid fs)
  unfolding save_object
  save_object-InStep coll oid fs = found (file_of oid fs.names)
    where
      found :
          (o : Option Text)
          → Stays b (elim o [ some name ↦ pure (name, fs) | none ↦ save_new b coll oid fs ])
      found (some name) = Stays-pure b _
      found none = save_new-InStep coll oid fs

  save_objects-InStep :
      (coll : Text) (oids : List Text) (fs : Files) → Stays b (save_objects b coll oids fs)
  unfolding save_objects
  save_objects-InStep coll [] fs = Stays-pure b _
  save_objects-InStep coll (oid ∷ oids) fs =
      Stays-bind b (save_object b coll oid fs) _ (save_object-InStep coll oid fs) λ o.
        Stays-bind b (save_objects b coll oids o.1) _ (save_objects-InStep coll oids o.1)
          λ p. Stays-pure b _

  save_column-InStep :
      (col : ℕ) (q : Text) (t : IqlTable) (fs : Files) → Stays b (save_column b col q t fs)
  unfolding save_column
  save_column-InStep col q t fs = Stays-bind b (lift (get_column t col)) _ (Stays-lift b _) λ oids.
      Stays-bind b (save_objects b _ oids fs) _ (save_objects-InStep _ oids fs)
        λ o. Stays-bind b (lift (set_filenames t o.0 _)) _ (Stays-lift b _) λ u. Stays-pure b _

  save_columns-InStep :
      (col : ℕ) (qs : List Text) (t : IqlTable) (fs : Files) → Stays b (save_columns b col qs t fs)
  unfolding save_columns
  save_columns-InStep col [] t fs = Stays-pure b t
  save_columns-InStep col (q ∷ []) t fs = Stays-pure b t
  save_columns-InStep col (q ∷ r ∷ qs) t fs =
      Triple-if (is_pair b q r) _ _
        (λ _.
          Stays-bind b (save_column b col q t fs) _ (save_column-InStep col q t fs)
            λ o. save_columns-InStep (col + 2) qs o.0 o.1)
        (λ _. save_columns-InStep (col + 1) (r ∷ qs) t fs)

  some_column-InStep : (qs : List Text) → Stays b (some_column b qs)
  some_column-InStep [] = Stays-raise b crash
  some_column-InStep (q ∷ qs) = Stays-pure b tt

  pub save_rasdaman_objects-InStep : (t : IqlTable) → Stays b (save_rasdaman_objects b t)
  unfolding save_rasdaman_objects
  save_rasdaman_objects-InStep t =
      Stays-bind b (some_column b t.qnames) _ (some_column-InStep t.qnames)
        λ _. save_columns-InStep 0 t.qnames t _
