-- ===== src/TrackingCopy/Ops.antt =====
-- The operations on a key: execution-engine/engine-core/src/engine_state/op.rs.

pub data Op : Type 0 where
  read write add no_op : Op

-- `impl Add for Op`
unfoldable pub add_op : Op → Op → Op
add_op a no_op = a
add_op no_op b = b
add_op read read = read
add_op add add = add
add_op _ _ = write
