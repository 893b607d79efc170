-- ===== src/Todo.antt =====
-- What is left to do: the classes of src/tws_meta.h that hold the requests of a work file.
pub mod Hist
pub mod Indexed
pub mod Work
pub mod Finish
mod Tests
