-- ===== src/Structs/Tables.antt =====
-- The tables of tpe_board.c, objects.c and object_param.c. An offset is the number of the field in
-- its struct, counted from 0.
use galaxie.Prelude.{ℕ, true, false}
use galaxie.Structs.{Kind, Items, end, no_end, item}

-- A row of one element, and a row of an array of structs with the number of its count.
abbrev one : Kind → ℕ → Items → Items
one kind off rest = item kind false off 0 end false rest

abbrev array : ℕ → ℕ → Items → Items → Items
array off lenoff sub rest = item Kind.struct true off lenoff sub true rest

-- tpe_board.c
unfoldable parserefs : Items
parserefs = one Kind.int 0 (one Kind.int 1 end)

-- board 0, slot 1, title 2, body 3, turn 4, unread 5, nrefs 6, references 7
unfoldable pub parsemessage : Items
unfolding parserefs
parsemessage = one Kind.int 0 (
    one Kind.int 1 (
      one Kind.int 5
        (one Kind.string 2 (one Kind.string 3 (one Kind.int 4 (array 7 6 parserefs end))))))

-- objects.c: name 0, id 1, description 2
unfoldable objectdescparam : Items
objectdescparam = one Kind.string 0 (one Kind.int 1 (one Kind.string 2 end))

-- id 0, name 1, description 2, nparams 3, params 4
unfoldable objectdescprops : Items
unfolding objectdescparam
objectdescprops =
    one Kind.int 0 (one Kind.string 1 (one Kind.string 2 (array 4 3 objectdescparam end)))

-- id 0, name 1, description 2, modtime 3, nprops 4, props 5
unfoldable pub objdescparse : Items
unfolding objectdescprops
objdescparse =
    one Kind.int 0
      (one Kind.string 1 (one Kind.string 2 (one Kind.long 3 (array 5 4 objectdescprops end))))

-- object_param.c: none of its tables has a row of type PARSETYPE_END.
unfoldable rvector : Items
rvector = one Kind.long 0 (one Kind.long 1 (one Kind.long 2 (one Kind.int 3 no_end)))

unfoldable boundposition : Items
boundposition = one Kind.int 0 no_end

-- max 0, id 1, norders 2, nordertypes 3, ordertypes 4
unfoldable orderqueue : Items
orderqueue =
    one Kind.int 0 (one Kind.int 1 (one Kind.int 2 (item Kind.int true 4 3 end false no_end)))

unfoldable pl_resources : Items
pl_resources = one Kind.int 0 (one Kind.int 1 (one Kind.int 2 (one Kind.int 3 no_end)))

unfoldable reslist : Items
unfolding pl_resources
reslist = array 1 0 pl_resources no_end

unfoldable pl_reference : Items
pl_reference = one Kind.int 0 (one Kind.int 1 no_end)

unfoldable pl_refquantity : Items
pl_refquantity = one Kind.int 0 (one Kind.int 1 (one Kind.int 2 no_end))

unfoldable pl_referencequantitylist : Items
unfolding pl_refquantity
pl_referencequantitylist = array 1 0 pl_refquantity no_end

unfoldable pl_int32 : Items
pl_int32 = one Kind.int 0 no_end

unfoldable pl_int64 : Items
pl_int64 = one Kind.long 0 no_end

unfoldable pl_string : Items
pl_string = one Kind.string 0 no_end
