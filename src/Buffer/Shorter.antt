-- ===== src/Buffer/Shorter.antt =====
-- The lossy push of src/fs_buffer.rs against a loop that pushes the characters one after another.
