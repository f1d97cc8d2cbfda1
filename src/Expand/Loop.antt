-- ===== src/Expand/Loop.antt =====
-- The loop of variable_expand_string in make-4.4/src/expand.c, with the expansions inside it.
