-- ===== src/Tests.antt =====
-- Runs of the modelled code at concrete inputs, and the theorems at inputs that meet their
-- hypotheses. One child for each part.
mod Alts
mod Versions
mod Characters
mod Configs
mod Caches
mod Deques
mod Wires
mod Arts
mod Jsons
